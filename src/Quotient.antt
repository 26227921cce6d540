-- ===== src/Quotient.antt =====
-- crates/oracle-layer/src/quotient.rs: division by the vanishing polynomial, and the evaluation of a
-- polynomial by Horner's rule, which fft.rs and deep_ali.rs share.
pub mod Horner
pub mod Iterate
pub mod Divide
use tscp_anchor.Prelude.{
  ℕ, zero, suc, ◌+◌, ◌-◌, Bool, true, false, ◌&&◌, Option, some, List, [], ◌∷◌, length, get_elem?,
  set, write, take, replicate, leb, if◌then◌else◌, ◌>>=◌,
}
use tscp_anchor.Field.{Field, ◌⊕◌, ◌⊗◌}

pub record QuotientResult {ℓ} (F : Type ℓ) : Type ℓ where
  pub quotient : List F
  pub remainder : List F

module _ {ℓ} {F : Type ℓ} ⦃f : Field F⦄ where
  -- `for c in coeffs.iter().rev() { acc = acc * x + *c; }`: the coefficients behind `c` come first.
  unfoldable pub eval_poly_horner : List F → F → F
  eval_poly_horner [] x = f.zero
  eval_poly_horner (c ∷ cs) x = eval_poly_horner cs x ⊗ x ⊕ c

  -- `for i in (n..deg).rev()`, at `i = n + k`: the working coefficients and the quotient.
  unfoldable pub divide_loop : ℕ → ℕ → List F → List F → Option (List F × List F)
  divide_loop n zero work quotient = some (work, quotient)
  divide_loop n (suc k) work quotient = do
    c ← get_elem? work (n + k)
    next ← write quotient k c
    let cleared = set work (n + k) f.zero
    old ← get_elem? cleared k
    divide_loop n k (set cleared k (old ⊕ c)) next

  unfoldable pub divide_by_vanishing : List F → ℕ → Option (QuotientResult F)
  divide_by_vanishing coeffs n =
      if leb (length coeffs) n
      then some (record { quotient = f.zero ∷ []; remainder = coeffs })
      else (do
        r ← divide_loop n (length coeffs - n) coeffs (replicate (length coeffs - n) f.zero)
        some (record { quotient = r.1; remainder = take n r.0 }))

  -- `.all(|&r| r == F::ZERO)`
  unfoldable pub all_zero : List F → Bool
  all_zero [] = true
  all_zero (r ∷ rs) = f.beq r f.zero && all_zero rs

  unfoldable pub vanishes_on_domain : List F → ℕ → Option Bool
  unfolding all_zero
  vanishes_on_domain coeffs n = do
    result ← divide_by_vanishing coeffs n
    some (all_zero result.remainder)
