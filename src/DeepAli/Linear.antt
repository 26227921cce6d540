-- ===== src/DeepAli/Linear.antt =====
-- The loop of the synthetic division of crates/prover-server/src/deep_ali.rs.
use tscp_anchor.Prelude.{
  ℕ, zero, suc, ◌+◌, ◌-◌, ◌≤◌, ◌<◌, ◌≡◌, refl, sym, ap, ◌∙◌, true, false, some, List, [], ◌∷◌, ◌++◌,
  length, get_elem?, get_or, write, replicate, leb, ◌==◌, arith,
}
use tscp_anchor.Prelude.Bits.{sub_usize-some}
use tscp_anchor.Field.{Field, ◌⊕◌, ◌⊖◌, ◌⊗◌}
use tscp_anchor.Field.Laws.{beq_refl, sub_self, zero-mul}
use tscp_anchor.Field.Ring.{ring, normal, x0, x1, plus, times, nought}
use tscp_anchor.Quotient.{eval_poly_horner}
use tscp_anchor.DeepAli.{ok, quotient_loop, lead, divide_linear}
use tscp_anchor.DeepAli.Synthetic.{
  rev_onto, synthetic, synthetic_exact, get-rev_onto, read_coeff, read_next, write_next,
}

module _ {ℓ} {F : Type ℓ} ⦃f : Field F⦄ where
  loop-synthetic :
      (z c r : F) (rp rs : List F)
      → quotient_loop
          (c ∷ rev_onto rp (r ∷ rs))
          z
          (length rp)
          (replicate (length rp) f.zero ++ synthetic z (r ∷ rs))
        ≡ some (synthetic z (rev_onto rp (r ∷ rs)))
  unfolding quotient_loop rev_onto synthetic
  loop-synthetic z c r [] rs = refl
  loop-synthetic z c r (p ∷ rp) rs =
      rw
        (
          read_coeff z c r p rp rs,
          read_next z r rs (length rp),
          write_next z r rs (length rp) (p ⊕ z ⊗ get_or (synthetic z (r ∷ rs)) 0 f.zero),
        )
        (loop-synthetic z c p rp (r ∷ rs))

  rev_onto-snoc :
      (rp : List F) (c : F) (ys : List F) → rev_onto (rp ++ c ∷ []) ys ≡ c ∷ rev_onto rp ys
  unfolding rev_onto
  rev_onto-snoc [] c ys = refl
  rev_onto-snoc (p ∷ rp) c ys = rev_onto-snoc rp c (p ∷ ys)

  length-rev_onto : (rp ys : List F) → length (rev_onto rp ys) ≡ length rp + length ys
  unfolding rev_onto
  length-rev_onto [] ys = omega arith
  length-rev_onto (p ∷ rp) ys = omega (arith, length-rev_onto rp (p ∷ ys))

  first :
      (z : F) (cs : List F)
      → 0 < length cs
      → get_elem? (synthetic z cs) 0 ≡ some (get_or (synthetic z cs) 0 f.zero)
  unfolding synthetic
  first z [] h = absurd (omega arith)
  first z (c ∷ cs) h = refl

  -- The remainder is the value at `z`.
  remainder :
      (z c : F) (cs : List F)
      → c ⊕ z ⊗ get_or (synthetic z cs) 0 f.zero ≡ eval_poly_horner (c ∷ cs) z
  remainder z c cs =
      sym (f.zero-add _)
      ∙ ap (λ t. t ⊕ (c ⊕ z ⊗ get_or (synthetic z cs) 0 f.zero))
          (sym (zero-mul (eval_poly_horner (synthetic z cs) z))
            ∙ ap (λ t. t ⊗ eval_poly_horner (synthetic z cs) z) (sym (sub_self z)))
      ∙ sym (synthetic_exact z z c cs)

  -- A nonempty list by its last element and those before it, the nearest first.
  record Reversed (xs : List F) : Type ℓ where
    before : List F
    last : F
    whole : xs ≡ rev_onto before (last ∷ [])

  reversed : (c : F) (cs : List F) → Reversed (c ∷ cs)
  reversed c [] = record { before = []; last = c; whole = unfold rev_onto in refl }
  reversed c (c' ∷ cs) =
      let r : Reversed (c' ∷ cs) = reversed c' cs in
      record {
        before = r.before ++ c ∷ [];
        last = r.last;
        whole = ap (λ t. c ∷ t) r.whole ∙ sym (rev_onto-snoc r.before c (r.last ∷ []));
      }

  single : (z r : F) → synthetic z (r ∷ []) ≡ r ∷ []
  unfolding synthetic normal
  single z r = ap (λ t. t ∷ []) (ring (z ∷ r ∷ []) (plus x1 (times x0 nought)) x1 refl)

  write_last :
      (k : ℕ) (v : F) → write (replicate (suc k) f.zero) k v ≡ some (replicate k f.zero ++ v ∷ [])
  write_last zero v = refl
  write_last (suc k) v = rw (write_last k v) refl

  lead-zeros :
      (z c r : F) (rp : List F) (n : ℕ)
      → n ≡ suc (suc (length rp))
      → lead (c ∷ rev_onto rp (r ∷ [])) n (replicate (n - 1) f.zero)
        ≡ some (replicate (length rp) f.zero ++ synthetic z (r ∷ []))
  unfolding lead
  lead-zeros z c r rp n h =
      rw
        (
          two n (omega arith),
          back_one,
          back_two,
          get-rev_onto rp r [],
          write_last (length rp) r,
          single z r,
        )
        refl
    where
      two : (n : ℕ) → 2 ≤ n → leb 2 n ≡ true
      two n h = ground arith

      back_one : n - 1 ≡ suc (length rp)
      back_one = omega arith

      back_two : n - 2 ≡ length rp
      back_two = omega arith

  divide_linear-synthetic :
      (z c r : F) (rp : List F)
      → divide_linear (c ∷ rev_onto rp (r ∷ [])) z ≡ some (ok (synthetic z (rev_onto rp (r ∷ []))))
  unfolding divide_linear
  divide_linear-synthetic z c r rp =
      rw
        (
          size_nonzero,
          lead-zeros z c r rp (suc (length (rev_onto rp (r ∷ [])))) size,
          sub_usize-some (suc (length (rev_onto rp (r ∷ [])))) 2 (length rp) (omega (arith, size)),
          loop-synthetic z c r rp [],
          first z (rev_onto rp (r ∷ [])) (omega (arith, size)),
          beq_refl (remainder z c (rev_onto rp (r ∷ []))),
        )
        refl
    where
      size : suc (length (rev_onto rp (r ∷ []))) ≡ suc (suc (length rp))
      size = omega (arith, length-rev_onto rp (r ∷ []))

      size_nonzero : (suc (length (rev_onto rp (r ∷ []))) == 0) ≡ false
      size_nonzero = ground arith

  -- For two coefficients or more, over any point z, the division returns a quotient, never the
  -- error on the remainder, and at every point the polynomial is (x - z) times the quotient plus
  -- its value at z.
  pub divide_linear-exact :
      (c c' z : F) (cs : List F)
      → (q : List F) × (divide_linear (c ∷ c' ∷ cs) z ≡ some (ok q))
        × ((x : F)
            → eval_poly_horner (c ∷ c' ∷ cs) x
              ≡ (x ⊖ z) ⊗ eval_poly_horner q x ⊕ eval_poly_horner (c ∷ c' ∷ cs) z)
  divide_linear-exact c c' z cs =
      let r : Reversed (c' ∷ cs) = reversed c' cs in
      (
        synthetic z (c' ∷ cs),
        ap (λ t. divide_linear (c ∷ t) z) r.whole
            ∙ divide_linear-synthetic z c r.last r.before
            ∙ ap (λ t. some (ok (synthetic z t))) (sym r.whole),
        λ x.
            synthetic_exact z x c (c' ∷ cs)
            ∙ ap (f.add ((x ⊖ z) ⊗ eval_poly_horner (synthetic z (c' ∷ cs)) x))
                (remainder z c (c' ∷ cs)),
      )
