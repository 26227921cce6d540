-- ===== src/Oracle/Mle.antt =====
-- The multilinear extension by binding the variables one by one, the first being the lowest bit of a
-- value's index, and `evaluate_mle` of crates/oracle-layer/src/oracle.rs.
use tscp_anchor.Prelude.{
  ℕ, zero, suc, ◌+◌, ◌*◌, ◌/◌, ◌%◌, ◌^◌, ◌<◌, ◌≡◌, refl, sym, ap, ◌∙◌, true, false, some, List, [],
  ◌∷◌, ◌++◌, length, if◌then◌else◌, ◌==◌, arith, ==_iff,
}
use tscp_anchor.Prelude.Bits.{bit, bit-zero, bit-suc, shl_one-some, pow_two-suc}
use tscp_anchor.Field.{Field, ◌⊕◌, ◌⊖◌, ◌⊗◌}
use tscp_anchor.Field.Laws.{mul-one}
use tscp_anchor.Field.Ring.{ring, normal, x0, x1, x2, x3, x4, plus, minus, times, unit, nought}
use tscp_anchor.Oracle.{basis_loop, mle_loop, evaluate_mle}

module _ {ℓ} {F : Type ℓ} ⦃f : Field F⦄ where
  -- The values with the first variable bound to `p`.
  unfoldable pub bind : F → List F → List F
  bind p [] = []
  bind p (a ∷ []) = []
  bind p (a ∷ b ∷ vs) = (a ⊗ (f.one ⊖ p) ⊕ b ⊗ p) ∷ bind p vs

  unfoldable pub bind_all : List F → List F → List F
  bind_all [] vs = vs
  bind_all (p ∷ ps) vs = bind_all ps (bind p vs)

  -- The multilinear extension, by binding all variables.
  unfoldable pub head_or : List F → F
  head_or [] = f.zero
  head_or (v ∷ vs) = v

  unfoldable pub mle : List F → List F → F
  mle ps vs = head_or (bind_all ps vs)

  pub length-bind : (p : F) (vs : List F) → length (bind p vs) ≡ length vs / 2
  unfolding bind
  length-bind p [] = refl
  length-bind p (a ∷ []) = omega arith
  length-bind p (a ∷ b ∷ vs) = omega (arith, length-bind p vs)

  pub length-bind_pow :
      (p : F) (vs : List F) (k : ℕ) → length vs ≡ 2 ^ suc k → length (bind p vs) ≡ 2 ^ k
  length-bind_pow p vs k h = omega (arith, length-bind p vs, pow_two-suc k, h)

  weight : ℕ → List F → F
  weight idx [] = f.one
  weight idx (p ∷ ps) = (if idx % 2 == 1 then p else f.one ⊖ p) ⊗ weight (idx / 2) ps

  -- The inner loop at position `i` reads the bits of `idx` from `i` on.
  shifted_weight : ℕ → ℕ → List F → F
  shifted_weight idx i [] = f.one
  shifted_weight idx i (p ∷ ps) =
      (if bit idx i == 1 then p else f.one ⊖ p) ⊗ shifted_weight idx (suc i) ps

  basis_loop-weight :
      (idx i : ℕ) (basis : F) (ps : List F)
      → basis_loop idx i basis ps ≡ basis ⊗ shifted_weight idx i ps
  unfolding basis_loop shifted_weight
  basis_loop-weight idx i basis [] = sym (mul-one basis)
  basis_loop-weight idx i basis (p ∷ ps) =
      basis_loop-weight idx (suc i) (basis ⊗ (if bit idx i == 1 then p else f.one ⊖ p)) ps
      ∙ f.mul_assoc _ _ _

  shifted_weight-suc :
      (idx i : ℕ) (ps : List F) → shifted_weight idx (suc i) ps ≡ shifted_weight (idx / 2) i ps
  unfolding shifted_weight
  shifted_weight-suc idx i [] = refl
  shifted_weight-suc idx i (p ∷ ps) = rw (bit-suc idx i, shifted_weight-suc idx (suc i) ps)

  shifted_weight-zero : (idx : ℕ) (ps : List F) → shifted_weight idx 0 ps ≡ weight idx ps
  unfolding shifted_weight weight
  shifted_weight-zero idx [] = refl
  shifted_weight-zero idx (p ∷ ps) =
      rw (bit-zero idx, shifted_weight-suc idx 0 ps, shifted_weight-zero (idx / 2) ps)

  basis-weight : (idx : ℕ) (ps : List F) → basis_loop idx 0 f.one ps ≡ weight idx ps
  basis-weight idx ps = basis_loop-weight idx 0 f.one ps ∙ f.one-mul _ ∙ shifted_weight-zero idx ps

  weighted : ℕ → List F → List F → F
  weighted idx [] ps = f.zero
  weighted idx (v ∷ vs) ps = v ⊗ weight idx ps ⊕ weighted (suc idx) vs ps

  mle_loop-weighted :
      (idx : ℕ) (acc : F) (vs ps : List F) → mle_loop idx acc vs ps ≡ acc ⊕ weighted idx vs ps
  unfolding mle_loop weighted normal
  mle_loop-weighted idx acc [] ps = ring (acc ∷ []) x0 (plus x0 nought) refl
  mle_loop-weighted idx acc (v ∷ vs) ps =
      mle_loop-weighted (suc idx) (acc ⊕ v ⊗ basis_loop idx 0 f.one ps) vs ps
      ∙ ap (λ w. acc ⊕ v ⊗ w ⊕ weighted (suc idx) vs ps) (basis-weight idx ps)
      ∙ f.add_assoc _ _ _

  -- A pair of neighbours weighs as the bound value does one level down.
  weighted_pair :
      (idx : ℕ) (p a b : F) (vs ps : List F)
      → weighted (2 * idx) (a ∷ b ∷ vs) (p ∷ ps)
        ≡ (a ⊗ (f.one ⊖ p) ⊕ b ⊗ p) ⊗ weight idx ps ⊕ weighted (2 * suc idx) vs (p ∷ ps)
  unfolding weighted weight normal
  weighted_pair idx p a b vs ps =
      rw (even_half, odd_half, even_bit, odd_bit, next)
        (ring (a ∷ b ∷ p ∷ weight idx ps ∷ weighted (2 * suc idx) vs (p ∷ ps) ∷ [])
          (plus (times x0 (times (minus unit x2) x3)) (plus (times x1 (times x2 x3)) x4))
          (plus (times (plus (times x0 (minus unit x2)) (times x1 x2)) x3) x4) refl)
    where
      even_half : 2 * idx / 2 ≡ idx
      even_half = omega arith

      odd_half : suc (2 * idx) / 2 ≡ idx
      odd_half = omega arith

      even_bit : (2 * idx % 2 == 1) ≡ false
      even_bit = ground arith

      odd_bit : (suc (2 * idx) % 2 == 1) ≡ true
      odd_bit = ground arith

      next : suc (suc (2 * idx)) ≡ 2 * suc idx
      next = omega arith

  weighted-bind :
      (idx m : ℕ) (p : F) (vs ps : List F)
      → length vs ≡ 2 * m
      → weighted (2 * idx) vs (p ∷ ps) ≡ weighted idx (bind p vs) ps
  unfolding bind
  weighted-bind idx m p [] ps h = unfold weighted in refl
  weighted-bind idx m p (a ∷ []) ps h = absurd (omega arith)
  weighted-bind idx zero p (a ∷ b ∷ vs) ps h = absurd (omega arith)
  weighted-bind idx (suc m) p (a ∷ b ∷ vs) ps h =
      weighted_pair idx p a b vs ps
      ∙ ap (λ t. (a ⊗ (f.one ⊖ p) ⊕ b ⊗ p) ⊗ weight idx ps ⊕ t)
          (weighted-bind (suc idx) m p vs ps (omega arith))
      ∙ unfold weighted in refl

  weighted_single : (vs : List F) → length vs ≡ 1 → weighted 0 vs [] ≡ head_or vs
  unfolding weighted weight head_or normal
  weighted_single [] h = absurd (omega arith)
  weighted_single (v ∷ []) h = ring (v ∷ []) (plus (times x0 unit) nought) x0 refl
  weighted_single (v ∷ w ∷ vs) h = absurd (omega arith)

  weighted-mle : (ps vs : List F) → length vs ≡ 2 ^ length ps → weighted 0 vs ps ≡ mle ps vs
  unfolding mle bind_all
  weighted-mle [] vs h = weighted_single vs h
  weighted-mle (p ∷ ps) vs h =
      weighted-bind 0 (2 ^ length ps) p vs ps (h ∙ pow_two-suc (length ps))
      ∙ weighted-mle ps (bind p vs) (length-bind_pow p vs (length ps) h)

  -- On a table of 2^n values and a point of n < 64 coordinates the loops of evaluate_mle return the
  -- multilinear extension, binding one variable after the other.
  pub evaluate_mle-mle :
      (vs ps : List F)
      → length ps < 64
      → length vs ≡ 2 ^ length ps
      → evaluate_mle vs ps ≡ some (mle ps vs)
  unfolding evaluate_mle
  evaluate_mle-mle vs ps small h =
      rw (shl_one-some (length ps) small, (==_iff _ _).1 h)
        (ap some (mle_loop-weighted 0 f.zero vs ps ∙ f.zero-add _ ∙ weighted-mle ps vs h))

  bind_all-append : (ps qs vs : List F) → bind_all (ps ++ qs) vs ≡ bind_all qs (bind_all ps vs)
  unfolding bind_all
  bind_all-append [] qs vs = refl
  bind_all-append (p ∷ ps) qs vs = bind_all-append ps qs (bind p vs)

  pub mle-append : (ps qs vs : List F) → mle (ps ++ qs) vs ≡ mle qs (bind_all ps vs)
  unfolding mle
  mle-append ps qs vs = ap head_or (bind_all-append ps qs vs)

  pub bind_all-snoc :
      (ps : List F) (r : F) (vs : List F) → bind_all (ps ++ r ∷ []) vs ≡ bind r (bind_all ps vs)
  bind_all-snoc ps r vs = bind_all-append ps (r ∷ []) vs ∙ unfold bind_all in refl

  pub length-bind_all :
      (ps vs : List F) (n : ℕ) → length vs ≡ 2 ^ (length ps + n) → length (bind_all ps vs) ≡ 2 ^ n
  unfolding bind_all
  length-bind_all [] vs n h = h ∙ ap (λ k. 2 ^ k) {x = 0 + n} (omega arith)
  length-bind_all (p ∷ ps) vs n h = length-bind_all ps (bind p vs) n (
      length-bind_pow p vs (length ps + n)
        (h ∙ ap (λ k. 2 ^ k) {x = suc (length ps) + n} (omega arith)))
