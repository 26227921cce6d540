-- ===== src/Sumcheck/Sound.antt =====
-- Accepted transcripts of `verify_sumcheck` of crates/oracle-layer/src/sumcheck.rs and their claims.
use tscp_anchor.Prelude.{
  ℕ, suc, ◌^◌, ◌≡◌, ◌≢◌, inl, inr, refl, sym, ap, ap₂, ◌∙◌, true, ◌==◌, ==_iff, Bool-cases,
  eq_of_some, Option, some, none, List, [], ◌∷◌, ◌++◌, length, arith,
}
use mathlib.Core.List.{append_assoc, append-nil}
use tscp_anchor.Prelude.Bits.{pow_two-suc}
use tscp_anchor.Field.{Field, ◌⊕◌, ◌⊖◌, ◌⊗◌}
use tscp_anchor.Field.Laws.{Field-cases, eq_of_sub, eq_zero_of_mul, sub_self, mul-zero}
use tscp_anchor.Field.Ring.{ring, normal, x0, x1, x2, x3, x4, x5, plus, minus, times}
use tscp_anchor.Oracle.{MleOracle}
use tscp_anchor.Oracle.Mle.{bind, mle, bind_all, length-bind_pow}
use tscp_anchor.Oracle.Cube.{sum, sum-bind, sum-bind_corners}
use tscp_anchor.Sumcheck.{
  SumcheckProof, ok, verify_sumcheck, verify_rounds, final_checks, oracle_check,
}
use tscp_anchor.Sumcheck.Round.{Extends}
use tscp_anchor.Sumcheck.Complete.{sum_single}

module _ {ℓ} {F : Type ℓ} ⦃f : Field F⦄ where
  -- The round polynomial through g(0) and g(1), at a point.
  abbrev pub line : F × F → F → F
  line g x = g.0 ⊕ x ⊗ (g.1 ⊖ g.0)

  abbrev pub honest_round : List F → F × F
  honest_round w = (sum (bind f.zero w), sum (bind f.one w))

  -- The challenge is the one point at which a wrong round polynomial meets the right one.
  pub record Meets (g h : F × F) (r : F) : Type ℓ where
    pub wrong : g ≢ h
    pub agrees : line g r ≡ line h r
    pub only : (x : F) → line g x ≡ line h x → x ≡ r

  pub data Lucky : List F → List (F × F) → List F → Type ℓ where
    here :
        {w : List F} {g : F × F} {gs : List (F × F)} {r : F} {rs : List F}
        → Meets g (honest_round w) r
        → Lucky w (g ∷ gs) (r ∷ rs)
    later :
        {w : List F} {g : F × F} {gs : List (F × F)} {r : F} {rs : List F}
        → Lucky (bind r w) gs rs
        → Lucky w (g ∷ gs) (r ∷ rs)

  beq→eq : {a b : F} → f.beq a b ≡ true → a ≡ b
  beq→eq {a} {b} h = (f.beq_iff a b).0 h

  oracle_check_sound : (final : F) (o : Option F) → oracle_check final o ≡ ok → o ≡ some final
  unfolding oracle_check
  oracle_check_sound final none h = cc
  oracle_check_sound final (some e) h = elim (Bool-cases (f.beq e final)) [
    | inl same ↦ ap some (beq→eq same)
    | inr other ↦ cc (rw other at h)
  ]

  final_checks_sound :
      (proof : SumcheckProof F) (oracle : MleOracle F) (running : F) (point : List F)
      → final_checks proof oracle running point ≡ ok
      → (running ≡ proof.final_eval) × (oracle.eval point ≡ some proof.final_eval)
  unfolding final_checks
  final_checks_sound proof oracle running point h =
      elim (Bool-cases (f.beq running proof.final_eval)) [
        | inl same ↦ (beq→eq same, oracle_check_sound _ _ (rw same at h))
        | inr other ↦ cc (rw other at h)
      ]

  slope : F × F → F × F → F
  slope g h = (g.1 ⊖ g.0) ⊖ (h.1 ⊖ h.0)

  -- Two lines of the same slope that meet are the same.
  parallel : (g h : F × F) (r : F) → slope g h ≡ f.zero → line g r ≡ line h r → g ≡ h
  unfolding slope normal
  parallel g h r flat agrees = λ i. (low i, high i)
    where
      low : g.0 ≡ h.0
      low = eq_of_sub (
          ring (g.0 ∷ g.1 ∷ h.0 ∷ h.1 ∷ r ∷ []) (minus x0 x2)
            (minus (minus (plus x0 (times x4 (minus x1 x0))) (plus x2 (times x4 (minus x3 x2))))
              (times x4 (minus (minus x1 x0) (minus x3 x2))))
            refl
          ∙ ap₂ f.sub (ap (λ y. y ⊖ line h r) agrees ∙ sub_self (line h r))
              (ap (f.mul r) flat ∙ mul-zero r)
          ∙ sub_self f.zero)

      high : g.1 ≡ h.1
      high = eq_of_sub (
          ring (g.0 ∷ g.1 ∷ h.0 ∷ h.1 ∷ []) (minus x1 x3)
            (plus (minus (minus x1 x0) (minus x3 x2)) (minus x0 x2)) refl
          ∙ ap₂ f.add flat (ap (λ y. y ⊖ h.0) low ∙ sub_self h.0)
          ∙ f.zero-add f.zero)

  line_unique :
      (g h : F × F) (r : F) → g ≢ h → line g r ≡ line h r → (x : F) → line g x ≡ line h x → x ≡ r
  unfolding slope normal
  line_unique g h r wrong agrees x e = elim (Field-cases (slope g h) f.zero) [
    | inl flat ↦ absurd (wrong (parallel g h r flat agrees))
    | inr steep ↦ eq_of_sub (
        eq_zero_of_mul steep (
          ring (g.0 ∷ g.1 ∷ h.0 ∷ h.1 ∷ r ∷ x ∷ [])
            (times (minus (minus x1 x0) (minus x3 x2)) (minus x5 x4))
            (minus (minus (plus x0 (times x5 (minus x1 x0))) (plus x2 (times x5 (minus x3 x2))))
              (minus (plus x0 (times x4 (minus x1 x0))) (plus x2 (times x4 (minus x3 x2)))))
            refl
          ∙ ap₂ f.sub (ap (λ y. y ⊖ line h x) e ∙ sub_self (line h x))
              (ap (λ y. y ⊖ line h r) agrees ∙ sub_self (line h r))
          ∙ sub_self f.zero))
  ]

  -- A false running claim meets the right one at some round, or ends in a false evaluation.
  verify_rounds-Lucky :
      (proof : SumcheckProof F) (oracle : MleOracle F) (vs : List F) (round : ℕ) (running : F)
      (point w : List F) (gs : List (F × F)) (rs : List F)
      → length gs ≡ length rs
      → length w ≡ 2 ^ length rs
      → oracle.eval (point ++ rs) ≡ some (mle rs w)
      → running ≢ sum w
      → verify_rounds proof oracle round running point gs rs ≡ ok
      → Lucky w gs rs
  unfolding verify_rounds
  verify_rounds-Lucky proof oracle vs round running point w [] [] l size answer false_claim h =
      let (e, o) = final_checks_sound proof oracle running point h in
      absurd (
        false_claim (
          e
          ∙ eq_of_some (sym o ∙ ap oracle.eval (sym (append-nil point)) ∙ answer)
          ∙ unfold mle bind_all in sym (sum_single w size)))
  verify_rounds-Lucky proof oracle vs round running point w [] (r ∷ rs) l size answer false_claim
        h =
      absurd (omega arith)
  verify_rounds-Lucky proof oracle vs round running point w (g ∷ gs) [] l size answer false_claim
        h =
      absurd (omega arith)
  verify_rounds-Lucky proof oracle vs round running point w (g ∷ gs) (r ∷ rs) l size answer
        false_claim h =
      elim (Bool-cases (f.beq (g.0 ⊕ g.1) running)) [
        | inr other ↦ cc (rw other at h)
        | inl same ↦ elim (Field-cases (line g r) (line (honest_round w) r)) [
          | inl agrees ↦ Lucky.here (record {
            wrong = wrong (beq→eq same);
            agrees = agrees;
            only = line_unique g (honest_round w) r (wrong (beq→eq same)) agrees;
          })
          | inr differs ↦ Lucky.later (
              verify_rounds-Lucky proof oracle vs (suc round) (line g r) (point ++ r ∷ [])
                (bind r w) gs rs (omega arith) (length-bind_pow r w (length rs) size)
                (ap oracle.eval (append_assoc point (r ∷ []) rs)
                  ∙ answer
                  ∙ unfold mle bind_all in refl)
                (λ e. differs (e ∙ sum-bind r w)) (rw same at h))
        ]
      ]
    where
      wrong : g.0 ⊕ g.1 ≡ running → g ≢ honest_round w
      wrong same e = false_claim (
          sym same
          ∙ ap (λ (p : F × F). p.0 ⊕ p.1) e
          ∙ sum-bind_corners w (2 ^ length rs) (size ∙ pow_two-suc (length rs)))

  -- A transcript with a false claimed sum that verify_sumcheck accepts over the multilinear
  -- extension of a table holds a wrong round polynomial whose challenge is the only point at which
  -- it meets the right one.
  pub verify_sumcheck-Lucky :
      {vs : List F} {n : ℕ} {oracle : MleOracle F}
      → Extends vs n oracle
      → (proof : SumcheckProof F) (challenges : List F) → proof.n_vars ≡ n
      → proof.claimed_sum ≢ sum vs
      → verify_sumcheck proof challenges oracle ≡ ok
      → Lucky vs proof.rounds challenges
  unfolding verify_sumcheck
  verify_sumcheck-Lucky {vs} {n} {oracle} ext proof challenges vars false_claim h =
      elim (Bool-cases (length proof.rounds == proof.n_vars)) [
        | inr other ↦ cc (rw other at h)
        | inl rounds ↦ elim (Bool-cases (length challenges == proof.n_vars)) [
          | inr other ↦ cc (rw (rounds, other) at h)
          | inl points ↦
              verify_rounds-Lucky proof oracle vs 0 proof.claimed_sum [] vs proof.rounds challenges
                ((==_iff _ _).0 rounds ∙ sym ((==_iff _ _).0 points))
                (ext.size ∙ ap (λ k. 2 ^ k) (sym vars ∙ sym ((==_iff _ _).0 points)))
                (ext.answers challenges ((==_iff _ _).0 points ∙ vars)) false_claim
                (rw (rounds, points) at h)
        ]
      ]
