-- ===== src/Poly.antt =====
-- crates/oracle-layer/src/poly.rs: long division of polynomials, and the vanishing polynomial.
pub mod Division
pub mod Exact
use tscp_anchor.Prelude.{
  ℕ, zero, suc, ◌+◌, ◌-◌, Option, none, some, List, [], ◌∷◌, length, get_elem?, set, write,
  replicate, ltb, if◌then◌else◌, check, ◌>>=◌, ◌>>◌,
}
use tscp_anchor.Prelude.Bits.{is_power_of_two}
use tscp_anchor.Field.{Field, ◌⊖◌, ◌⊗◌}

-- `den.last()`
abbrev pub last {ℓ} : {A : Type ℓ} → List A → Option A
last [] = none
last (x ∷ []) = some x
last (x ∷ y ∷ ys) = last (y ∷ ys)

-- `Radix2Dit` of p3_dft: from coefficients to values at the powers of the root, and back.
pub record TwoAdicSubgroupDft {ℓ} (F : Type ℓ) : Type ℓ where
  pub dft : List F → List F
  pub idft : List F → List F

module _ {ℓ} {F : Type ℓ} (d : TwoAdicSubgroupDft F) where
  unfoldable pub interpolate : List F → Option (List F)
  interpolate evals = do check (is_power_of_two (length evals)); some (d.idft evals)

  unfoldable pub evaluate : List F → Option (List F)
  evaluate coeffs = do check (is_power_of_two (length coeffs)); some (d.dft coeffs)

module _ {ℓ} {F : Type ℓ} ⦃f : Field F⦄ where
  unfoldable pub vanishing_poly : ℕ → Option (List F)
  vanishing_poly n = do
    coeffs ← write (replicate (n + 1) f.zero) 0 (f.neg f.one)
    write coeffs n f.one

  -- `for j in 0..den.len() { r[k + j] -= coeff * den[j]; }`, from `i = k + j` on.
  unfoldable pub subtract_row : F → List F → ℕ → List F → Option (List F)
  subtract_row coeff [] i r = some r
  subtract_row coeff (d ∷ ds) i r = do
    old ← get_elem? r i
    subtract_row coeff ds (suc i) (set r i (old ⊖ coeff ⊗ d))

  -- `for k in (0..=r.len() - den.len()).rev()`: the working remainder and the quotient.
  unfoldable pub poly_div_loop : List F → F → ℕ → List F → List F → Option (List F × List F)
  poly_div_loop den den_lead zero r q = some (r, q)
  poly_div_loop den den_lead (suc k) r q = do
    top ← get_elem? r (k + length den - 1)
    inv ← f.inverse den_lead
    next ← write q k (top ⊗ inv)
    rest ← subtract_row (top ⊗ inv) den k r
    poly_div_loop den den_lead k rest next

  unfoldable pub poly_div : List F → List F → Option (List F)
  poly_div num den = if ltb (length num) (length den) then some [] else (do
    den_lead ← last den
    let terms = length num - length den + 1
    if f.beq den_lead f.zero
        then some []
        else (do r ← poly_div_loop den den_lead terms num (replicate terms f.zero); some r.1))

  unfoldable pub build_quotient : List F → ℕ → Option (List F)
  build_quotient constraint_poly domain_size = do
    van ← vanishing_poly domain_size
    poly_div constraint_poly van
