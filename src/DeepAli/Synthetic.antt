-- ===== src/DeepAli/Synthetic.antt =====
-- The synthetic division of crates/prover-server/src/deep_ali.rs as a recursion from the leading
-- coefficient, and the lists that its loop works on.
use tscp_anchor.Prelude.{
  ℕ, zero, suc, ◌+◌, ◌≡◌, refl, ap, ◌∙◌, some, List, [], ◌∷◌, ◌++◌, length, get_elem?, get_or,
  write, replicate, arith,
}
use tscp_anchor.Field.{Field, ◌⊕◌, ◌⊖◌, ◌⊗◌}
use tscp_anchor.Field.Ring.{ring, normal, x0, x1, x2, x3, x4, plus, minus, times, nought}
use tscp_anchor.Quotient.{eval_poly_horner}

-- A list behind the reversal of another.
unfoldable pub rev_onto {ℓ} : {A : Type ℓ} → List A → List A → List A
rev_onto [] rest = rest
rev_onto (x ∷ xs) rest = rev_onto xs (x ∷ rest)

module _ {ℓ} {F : Type ℓ} ⦃f : Field F⦄ where
  -- The quotient's coefficients, from the polynomial's behind the constant one.
  unfoldable pub synthetic : F → List F → List F
  synthetic z [] = []
  synthetic z (c ∷ cs) = (c ⊕ z ⊗ get_or (synthetic z cs) 0 f.zero) ∷ synthetic z cs

  pub synthetic_scaled :
      (z x : F) (cs : List F)
      → eval_poly_horner cs x ⊗ x
        ≡ (x ⊖ z) ⊗ eval_poly_horner (synthetic z cs) x ⊕ z ⊗ get_or (synthetic z cs) 0 f.zero
  unfolding eval_poly_horner synthetic normal
  synthetic_scaled z x [] =
      ring (z ∷ x ∷ []) (times nought x1) (plus (times (minus x1 x0) nought) (times x0 nought)) refl
  synthetic_scaled z x (c ∷ cs) =
      ap (λ t. (t ⊕ c) ⊗ x) (synthetic_scaled z x cs)
      ∙ ring
          (z ∷ x ∷ c ∷ eval_poly_horner (synthetic z cs) x ∷ get_or (synthetic z cs) 0 f.zero ∷ [])
          (times (plus (plus (times (minus x1 x0) x3) (times x0 x4)) x2) x1)
          (plus (times (minus x1 x0) (plus (times x3 x1) (plus x2 (times x0 x4))))
            (times x0 (plus x2 (times x0 x4))))
          refl

  -- The polynomial is `(x - z) * quotient` plus the remainder.
  pub synthetic_exact :
      (z x c : F) (cs : List F)
      → eval_poly_horner (c ∷ cs) x
        ≡ (x ⊖ z) ⊗ eval_poly_horner (synthetic z cs) x ⊕ (c ⊕ z ⊗ get_or (synthetic z cs) 0 f.zero)
  unfolding eval_poly_horner
  synthetic_exact z x c cs =
      ap (λ t. t ⊕ c) (synthetic_scaled z x cs) ∙ f.add_assoc _ _ _ ∙ ap (f.add _) (f.add_comm _ _)

  pub get-rev_onto_behind :
      (rp : List F) (i : ℕ) (ys : List F)
      → get_elem? (rev_onto rp ys) (length rp + i) ≡ get_elem? ys i
  unfolding rev_onto
  get-rev_onto_behind [] i ys = ap (get_elem? ys) {x = 0 + i} {y = i} (omega arith)
  get-rev_onto_behind (p ∷ rp) i ys =
      ap (get_elem? (rev_onto rp (p ∷ ys))) {x = suc (length rp) + i} {y = length rp + suc i}
        (omega arith)
      ∙ get-rev_onto_behind rp (suc i) (p ∷ ys)

  pub get-rev_onto :
      (rp : List F) (y : F) (ys : List F) → get_elem? (rev_onto rp (y ∷ ys)) (length rp) ≡ some y
  get-rev_onto rp y ys =
      ap (get_elem? (rev_onto rp (y ∷ ys))) {x = length rp} {y = length rp + 0} (omega arith)
      ∙ get-rev_onto_behind rp 0 (y ∷ ys)

  pub get-zeros : (k : ℕ) (xs : List F) → get_elem? (replicate k f.zero ++ xs) k ≡ get_elem? xs 0
  get-zeros zero xs = refl
  get-zeros (suc k) xs = get-zeros k xs

  pub write-zeros :
      (k : ℕ) (v y : F) (xs : List F)
      → write (replicate k f.zero ++ y ∷ xs) k v ≡ some (replicate k f.zero ++ v ∷ xs)
  write-zeros zero v y xs = refl
  write-zeros (suc k) v y xs = rw (write-zeros k v y xs) refl

  pub zeros-snoc :
      (k : ℕ) (xs : List F) → replicate (suc k) f.zero ++ xs ≡ replicate k f.zero ++ f.zero ∷ xs
  zeros-snoc zero xs = refl
  zeros-snoc (suc k) xs = ap (λ t. f.zero ∷ t) (zeros-snoc k xs)

  pub read_coeff :
      (z c r p : F) (rp rs : List F)
      → get_elem? (c ∷ rev_onto rp (p ∷ r ∷ rs)) (length rp + 1) ≡ some p
  read_coeff z c r p rp rs =
      ap (get_elem? (c ∷ rev_onto rp (p ∷ r ∷ rs))) {x = length rp + 1} {y = suc (length rp)}
        (omega arith)
      ∙ get-rev_onto rp p (r ∷ rs)

  pub read_next :
      (z r : F) (rs : List F) (k : ℕ)
      → get_elem? (replicate (suc k) f.zero ++ synthetic z (r ∷ rs)) (k + 1)
        ≡ some (get_or (synthetic z (r ∷ rs)) 0 f.zero)
  read_next z r rs k =
      ap (get_elem? (replicate (suc k) f.zero ++ synthetic z (r ∷ rs))) {x = k + 1} {y = suc k}
        (omega arith)
      ∙ get-zeros (suc k) (synthetic z (r ∷ rs))
      ∙ unfold synthetic in refl

  pub write_next :
      (z r : F) (rs : List F) (k : ℕ) (v : F)
      → write (replicate (suc k) f.zero ++ synthetic z (r ∷ rs)) k v
        ≡ some (replicate k f.zero ++ v ∷ synthetic z (r ∷ rs))
  write_next z r rs k v =
      ap (λ t. write t k v) (zeros-snoc k (synthetic z (r ∷ rs)))
      ∙ write-zeros k v f.zero (synthetic z (r ∷ rs))
