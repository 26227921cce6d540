-- ===== src/ProverServer/Handler.antt =====
-- The responses of `prove_handler` of crates/prover-server/src/main.rs, guard by guard.
use tscp_anchor.Prelude.{
  ℕ, ◌^◌, ◌<◌, ◌≤◌, ltb, ltb→lt, ◌≡◌, ◌≢◌, refl, sym, ap, ◌∙◌, Bool, true, false, ◌||◌, Bool-cases,
  some, List, [], ◌∷◌, map, length, length-map, length-replicate, replicate, ◌⊎◌, inl, inr, ◌==◌,
  ==_iff, arith,
}
use native.Mathlib.Nat.{pow-le-pow_right}
use tscp_anchor.Prelude.Bits.{
  is_power_of_two, is_power_of_two-pow, is_power_of_two_sound, ilog2, ilog2-pow, pow_two-pos,
}
use tscp_anchor.Field.{Field, PrimeField32}
use tscp_anchor.Oracle.Cube.{sum}
use tscp_anchor.FriProtocol.{Challenger}
use tscp_anchor.Folded.{folded_oracle}
use tscp_anchor.Folded.Fold.{
  Columns, none_left, column, folded, build_folded-Columns, length-add_columns,
}
use tscp_anchor.Sumcheck.Round.{evaluate_mle-Extends}
use tscp_anchor.ProverServer.{
  ProofRequest, SumcheckProof, Response, at_capacity, owsl_denied, empty_columns, length_mismatch,
  not_power_of_two, self_check_failed, observe_all, ship, prove_folded, prove_columns,
  prove_handler,
}
use tscp_anchor.ProverServer.SelfCheck.{self_check, table_rounds}

module _ {ℓ} {F : Type ℓ} {C S : Type 0} ⦃f : Field F⦄ (c : Challenger F C S) ⦃p : PrimeField32 F⦄
    (start : S) (to_vec : SumcheckProof F → List ℕ ⊎ List ℕ) where
  -- The table that a request asks about: the two columns, folded.
  abbrev pub columns_of : ProofRequest → List (List F)
  columns_of req = map p.of_u32 req.col0 ∷ map p.of_u32 req.col1 ∷ []

  abbrev pub table_of : ProofRequest → List F
  table_of req = folded (p.of_u32 req.alpha) (columns_of req) (length req.col0)

  abbrev pub transcript_of : ProofRequest → S
  transcript_of req =
      observe_all c (observe_all c start (map p.of_u32 req.col0)) (map p.of_u32 req.col1)

  -- The proof of a request over 2^n rows.
  abbrev pub proof_of : ProofRequest → ℕ → SumcheckProof F
  proof_of req n = record {
    claimed_sum = sum (table_of req);
    rounds = table_rounds c n (transcript_of req) (table_of req);
  }

  prove_folded-proof :
      (req : ProofRequest) (n : ℕ)
      → n < 64
      → length (table_of req) ≡ 2 ^ n
      → prove_folded c start to_vec req
          (record { values = table_of req; n_vars = n; alpha = p.of_u32 req.alpha })
          (transcript_of req)
          (transcript_of req)
          n
        ≡ some (ship c start to_vec req (proof_of req n) (to_vec (proof_of req n)))
  unfolding prove_folded folded_oracle
  prove_folded-proof req n small size =
      let (claim, rounds, accepted) =
        self_check c (evaluate_mle-Extends (table_of req) n small size) (transcript_of req) in
      rw (claim, rounds, accepted) refl

  pub request-Columns :
      (req : ProofRequest) (m : ℕ)
      → length req.col0 ≡ m
      → length req.col1 ≡ m
      → Columns m (columns_of req)
  request-Columns req m h0 h1 =
      column (length-map req.col0 p.of_u32 ∙ h0)
        (column (length-map req.col1 p.of_u32 ∙ h1) none_left)

  prove_columns-proof :
      (req : ProofRequest) (n : ℕ)
      → n < 64
      → length req.col0 ≡ 2 ^ n
      → length req.col1 ≡ 2 ^ n
      → prove_columns c start to_vec req
        ≡ some (ship c start to_vec req (proof_of req n) (to_vec (proof_of req n)))
  unfolding prove_columns
  prove_columns-proof req n small h0 h1 =
      let cs : Columns (length req.col0) (columns_of req) =
        request-Columns req (length req.col0) refl (h1 ∙ sym h0) in
      rw
        (
          ap ilog2 h0 ∙ ilog2-pow n,
          build_folded-Columns (p.of_u32 req.alpha) (map p.of_u32 req.col0)
              (map p.of_u32 req.col1 ∷ []) n (length req.col0) cs,
        )
        (prove_folded-proof req n small (
          length-add_columns (length req.col0) (p.of_u32 req.alpha) f.one
            (replicate (length req.col0) f.zero) (length-replicate (length req.col0) f.zero) cs
          ∙ h0))

  nonzero_pow : (n m : ℕ) → m ≡ 2 ^ n → (m == 0) ≡ false
  nonzero_pow n m h = ground (arith, pow_two-pos n)

  -- With a permit and the gate's consent, on two columns of 2^n values each with n < 64, the
  -- handler answers with the sealed proof of the folded table, or the encoder's error: the self-
  -- check accepted the proof.
  pub prove_handler-proof :
      (req : ProofRequest) (n : ℕ)
      → n < 64
      → length req.col0 ≡ 2 ^ n
      → length req.col1 ≡ 2 ^ n
      → prove_handler c start to_vec true true req
        ≡ some (ship c start to_vec req (proof_of req n) (to_vec (proof_of req n)))
  unfolding prove_handler
  prove_handler-proof req n small h0 h1 =
      rw
        (
          nonzero_pow n (length req.col0) h0,
          nonzero_pow n (length req.col1) h1,
          (==_iff _ _).1 (h0 ∙ sym h1),
          ap is_power_of_two h0 ∙ is_power_of_two-pow n,
        )
        (prove_columns-proof req n small h0 h1)

  -- The answer to a request, by the permit and the verdict of the gate.
  pub data Answer (req : ProofRequest) : Bool → Bool → Response → Type ℓ where
    busy : {owsl : Bool} → Answer req false owsl at_capacity
    denied : Answer req true false owsl_denied
    empty : (length req.col0 ≡ 0) ⊎ (length req.col1 ≡ 0) → Answer req true true empty_columns
    mismatch :
        length req.col0 ≢ length req.col1
        → Answer req true true (length_mismatch (length req.col0) (length req.col1))
    ragged :
        ((n : ℕ) → length req.col0 ≢ 2 ^ n)
        → Answer req true true (not_power_of_two (length req.col0))
    proved :
        (n : ℕ)
        → length req.col0 ≡ 2 ^ n
        → length req.col1 ≡ 2 ^ n
        → Answer req true true (ship c start to_vec req (proof_of req n) (to_vec (proof_of req n)))

  abbrev Answered : Bool → Bool → ProofRequest → Type ℓ
  Answered permit owsl req =
      (r : Response) × (prove_handler c start to_vec permit owsl req ≡ some r)
      × Answer req permit owsl r

  or_zero : (a b : ℕ) → ((a == 0) || (b == 0)) ≡ true → (a ≡ 0) ⊎ (b ≡ 0)
  or_zero a b h = ground arith

  not_less : (n : ℕ) → ltb n 64 ≡ false → 64 ≤ n
  not_less n h = ground arith

  pub small_exponent : (n m : ℕ) → m ≡ 2 ^ n → m < 2 ^ 64 → n < 64
  small_exponent n m e h = elim (Bool-cases (ltb n 64)) [
    | inl less ↦ ltb→lt n 64 less
    | inr more ↦
        let large : 2 ^ 64 ≤ 2 ^ n = pow-le-pow_right (omega arith) (not_less n more) in
        absurd (omega (arith, e, h))
  ]

  power_or_ragged :
      (req : ProofRequest)
      → length req.col0 < 2 ^ 64
      → ((length req.col0 == 0) || (length req.col1 == 0)) ≡ false
      → length req.col0 ≡ length req.col1
      → Answered true true req
  unfolding prove_handler
  power_or_ragged req small full same = elim (Bool-cases (is_power_of_two (length req.col0))) [
    | inl power ↦
        let (n, e) = is_power_of_two_sound (length req.col0) power in
        (
          _,
          prove_handler-proof req n (small_exponent n (length req.col0) e small) e (sym same ∙ e),
          proved n e (sym same ∙ e),
        )
    | inr other ↦ (
      _,
      rw (full, (==_iff _ _).1 same, other) refl,
      ragged (λ n e. cc (other, ap is_power_of_two e, is_power_of_two-pow n)),
    )
  ]

  columns-Answered : (req : ProofRequest) → length req.col0 < 2 ^ 64 → Answered true true req
  unfolding prove_handler
  columns-Answered req small =
      elim (Bool-cases ((length req.col0 == 0) || (length req.col1 == 0))) [
        | inl e ↦ (_, rw e refl, empty (or_zero _ _ e))
        | inr full ↦ elim (Bool-cases (length req.col0 == length req.col1)) [
          | inl same ↦ power_or_ragged req small full ((==_iff _ _).0 same)
          | inr other ↦ (_, rw (full, other) refl, mismatch (λ e. cc (other, (==_iff _ _).1 e)))
        ]
      ]

  pub prove_handler-Answer :
      (permit owsl : Bool) (req : ProofRequest)
      → length req.col0 < 2 ^ 64
      → (r : Response) × (prove_handler c start to_vec permit owsl req ≡ some r)
        × Answer req permit owsl r
        × (r ≢ self_check_failed)
  prove_handler-Answer permit owsl req small =
      let (r, made, answer) = answered permit owsl in (r, made, answer, shipped answer)
    where
      answered : (permit owsl : Bool) → Answered permit owsl req
      answered false owsl = (at_capacity, unfold prove_handler in refl, busy)
      answered true false = (owsl_denied, unfold prove_handler in refl, denied)
      answered true true = columns-Answered req small

      never :
          (proof : SumcheckProof F) (encoded : List ℕ ⊎ List ℕ)
          → ship c start to_vec req proof encoded ≢ self_check_failed
      never proof (inl payload) = unfold ship in (λ h. cc)
      never proof (inr e) = unfold ship in (λ h. cc)

      shipped :
          {permit owsl : Bool} {r : Response} → Answer req permit owsl r → r ≢ self_check_failed
      shipped busy h = cc
      shipped denied h = cc
      shipped (empty e) h = cc
      shipped (mismatch n) h = cc
      shipped (ragged n) h = cc
      shipped (proved n e e') h = never (proof_of req n) (to_vec (proof_of req n)) h
