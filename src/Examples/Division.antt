-- ===== src/Examples/Division.antt =====
-- The fold of a polynomial's evaluations and long division at concrete inputs.
use tscp_anchor.Prelude.{
  ℕ, zero, suc, ap, eq_of_some, ◌/◌, ◌+◌, ◌<◌, ◌≡◌, ◌≢◌, refl, true, some, List, [], ◌∷◌, length,
  get_elem?, arith,
}
use tscp_anchor.Field.{◌⊕◌, ◌⊖◌, ◌⊗◌, from_u64}
use tscp_anchor.Prelude.Bits.{is_power_of_two, trailing_zeros}
use tscp_anchor.Field.Five.{Five, e0, e1, e2, e3, e4, five, five_prime}
use tscp_anchor.Quotient.{eval_poly_horner}
use tscp_anchor.Fri.{fri_fold_step, fold_loop, fold_at, folded_value, fold_domain}
use tscp_anchor.Fri.Poly.{IsTable, IsSymmetric}
use tscp_anchor.FriQuery.{FriProof, fri_prove, fri_verify}
use tscp_anchor.FriQuery.Accept.{fri_verify-fri_prove}
use tscp_anchor.FriQuery.Folds.{Symmetric, ends, folds, Folded, fri_prove-Folded}
use tscp_anchor.Poly.{poly_div, build_quotient, poly_div_loop, subtract_row, vanishing_poly}
use tscp_anchor.Poly.Exact.{poly_div-exact}
use tscp_anchor.Examples.{mmcs, challenger, two_ne_zero, roots_of_unity, roots_of_unity-NonZero}
use tscp_anchor.Examples.Polynomials.{multiple}

-- 1 + 2 x + 3 x^2 + 4 x^3
abbrev coefficients : List Five
coefficients = e1 ∷ e2 ∷ e3 ∷ e4 ∷ []

abbrev evaluations : List Five
evaluations = e0 ∷ e4 ∷ e3 ∷ e2 ∷ []

evaluations-IsTable : IsTable coefficients roots_of_unity evaluations
unfolding eval_poly_horner
evaluations-IsTable = record { size = refl; values = value }
  where
    value :
        (i : ℕ) (x : Five)
        → get_elem? roots_of_unity i ≡ some x
        → get_elem? evaluations i ≡ some (eval_poly_horner coefficients x)
    value zero x h = ap (λ z. some (eval_poly_horner coefficients z)) (eq_of_some h)
    value (suc zero) x h = ap (λ z. some (eval_poly_horner coefficients z)) (eq_of_some h)
    value (suc (suc zero)) x h = ap (λ z. some (eval_poly_horner coefficients z)) (eq_of_some h)
    value (suc (suc (suc zero))) x h =
        ap (λ z. some (eval_poly_horner coefficients z)) (eq_of_some h)
    value (suc (suc (suc (suc i)))) x h = absurd cc

roots_of_unity-IsSymmetric : IsSymmetric roots_of_unity
roots_of_unity-IsSymmetric = record { opposite = opposite }
  where
    opposite :
        (i : ℕ) (x : Five)
        → i < length roots_of_unity / 2
        → get_elem? roots_of_unity i ≡ some x
        → get_elem? roots_of_unity (i + length roots_of_unity / 2) ≡ some (e0 ⊖ x)
    opposite zero x less h = ap (λ z. some (e0 ⊖ z)) (eq_of_some h)
    opposite (suc zero) x less h = ap (λ z. some (e0 ⊖ z)) (eq_of_some h)
    opposite (suc (suc i)) x less h = absurd (omega (arith, less))

evaluations_fold : fri_fold_step evaluations roots_of_unity e2 ≡ some (e1 ∷ e4 ∷ [])
unfolding fri_fold_step fold_loop fold_at folded_value is_power_of_two trailing_zeros from_u64
evaluations_fold = refl

squares-IsSymmetric : IsSymmetric (e1 ∷ e4 ∷ [])
squares-IsSymmetric = record { opposite = opposite }
  where
    opposite :
        (i : ℕ) (x : Five)
        → i < 1
        → get_elem? (e1 ∷ e4 ∷ []) i ≡ some x
        → get_elem? (e1 ∷ e4 ∷ []) (i + 1) ≡ some (e0 ⊖ x)
    opposite zero x less h = ap (λ z. some (e0 ⊖ z)) (eq_of_some h)
    opposite (suc i) x less h = absurd (omega (arith, less))

roots_of_unity-Symmetric : Symmetric 2 roots_of_unity
unfolding fold_domain
roots_of_unity-Symmetric =
    folds 1 _ roots_of_unity-IsSymmetric (folds 0 _ squares-IsSymmetric (ends _))

-- What the prover made of the evaluations, with two queries.
abbrev proved :
    (proof : FriProof Five (List Five) (Unit {0})) × (after : ℕ) × (fri_prove mmcs challenger
        evaluations roots_of_unity 0 2
      ≡ some (proof, after))
    × (fri_verify mmcs challenger roots_of_unity proof 0 2 ≡ some true)
proved =
    fri_verify-fri_prove mmcs challenger 1 evaluations roots_of_unity 0 2 two_ne_zero
      roots_of_unity-NonZero refl refl

fri_prove-Folded_example :
    Folded mmcs challenger coefficients evaluations roots_of_unity 0 proved.0 2
fri_prove-Folded_example =
    fri_prove-Folded mmcs challenger 2 coefficients evaluations roots_of_unity 0 proved.1 2 proved.0
      refl (omega arith) evaluations-IsTable roots_of_unity-Symmetric proved.2

-- -1 + 2 x^2
abbrev divisor : List Five
divisor = e4 ∷ e0 ∷ e2 ∷ []

divisor_leading : e2 ≢ e0
divisor_leading h = cc

poly_div-exact_example :
    (q : List Five) × (r : List Five) × (poly_div multiple divisor ≡ some q)
    × (length q ≡ 2)
    × (length r < 3)
    × ((x : Five)
        → eval_poly_horner multiple x
          ≡ eval_poly_horner q x ⊗ eval_poly_horner divisor x ⊕ eval_poly_horner r x)
poly_div-exact_example = poly_div-exact multiple divisor e2 refl divisor_leading

quotient_built : build_quotient multiple 2 ≡ some (e2 ∷ e3 ∷ [])
unfolding build_quotient poly_div poly_div_loop subtract_row vanishing_poly
quotient_built = refl
