-- ===== src/ProverServer/Shipped.antt =====
-- What a client may conclude from a success response of crates/prover-server/src/main.rs.
use tscp_anchor.Prelude.{
  ℕ, zero, suc, ◌^◌, ◌<◌, ◌≡◌, refl, sym, ap, ◌∙◌, Bool, true, some, List, [], ◌∷◌, map, length,
  length-map, length-replicate, replicate, eq_of_some, ◌⊎◌, inl, inr, arith,
}
use tscp_anchor.Prelude.Text.{codes}
use tscp_anchor.Field.{Field, PrimeField32, ◌⊕◌, ◌⊗◌}
use tscp_anchor.Field.Ring.{ring, normal, x0, x1, x2, x3, x4, plus, times, unit, nought}
use tscp_anchor.Oracle.Cube.{sum}
use tscp_anchor.FriProtocol.{Challenger}
use tscp_anchor.Folded.{folded_oracle}
use tscp_anchor.Folded.Fold.{
  Columns, add_scaled, add_columns, length-add_scaled, length-add_columns,
}
use tscp_anchor.Sumcheck.Round.{evaluate_mle-Extends}
use tscp_anchor.ProofEnvelope.{v0_6_1, open_envelope, seal_061, open_envelope-seal}
use tscp_anchor.ProofEnvelope
use tscp_anchor.ProverServer.{
  ProofRequest, SumcheckProof, SealedProofResponse, Response, success, ship, sumcheck_verify,
  prove_handler,
}
use tscp_anchor.ProverServer.SelfCheck.{self_check}
use tscp_anchor.ProverServer.Handler.{
  columns_of, table_of, transcript_of, proof_of, request-Columns, small_exponent, Answer, busy,
  denied, empty, mismatch, ragged, proved, prove_handler-Answer,
}

module _ {ℓ} {F : Type ℓ} ⦃f : Field F⦄ where
  sum-replicate : (n : ℕ) → sum (replicate n f.zero) ≡ f.zero
  unfolding sum
  sum-replicate zero = refl
  sum-replicate (suc n) = f.zero-add (sum (replicate n f.zero)) ∙ sum-replicate n

  sum-add_scaled :
      (c : F) (w v : List F) → length v ≡ length w → sum (add_scaled c w v) ≡ sum w ⊕ c ⊗ sum v
  unfolding sum add_scaled normal
  sum-add_scaled c [] [] h = ring (c ∷ []) nought (plus nought (times x0 nought)) refl
  sum-add_scaled c [] (v ∷ vs) h = absurd (omega arith)
  sum-add_scaled c (a ∷ w) [] h = absurd (omega arith)
  sum-add_scaled c (a ∷ w) (v ∷ vs) h =
      ap (λ t. (a ⊕ c ⊗ v) ⊕ t) (sum-add_scaled c w vs (omega arith))
      ∙ ring (c ∷ a ∷ v ∷ sum w ∷ sum vs ∷ [])
          (plus (plus x1 (times x0 x2)) (plus x3 (times x0 x4)))
          (plus (plus x1 x3) (times x0 (plus x2 x4))) refl

  -- The sum of two columns folded with `alpha`.
  sum-folded :
      (alpha : F) (col0 col1 : List F) (n : ℕ)
      → length col0 ≡ n
      → length col1 ≡ n
      → sum (add_columns alpha f.one (col0 ∷ col1 ∷ []) (replicate n f.zero))
        ≡ sum col0 ⊕ alpha ⊗ sum col1
  unfolding add_columns normal
  sum-folded alpha col0 col1 n h0 h1 =
      let zeros : length (replicate n f.zero) ≡ n = length-replicate n f.zero in
      let first : length (add_scaled f.one (replicate n f.zero) col0) ≡ n =
        length-add_scaled f.one (replicate n f.zero) col0 (h0 ∙ sym zeros) ∙ zeros in
      sum-add_scaled (f.one ⊗ alpha) (add_scaled f.one (replicate n f.zero) col0) col1
        (h1 ∙ sym first)
      ∙ ap (λ t. t ⊕ f.one ⊗ alpha ⊗ sum col1)
          (sum-add_scaled f.one (replicate n f.zero) col0 (h0 ∙ sym zeros)
            ∙ ap (λ t. t ⊕ f.one ⊗ sum col0) (sum-replicate n))
      ∙ ring (alpha ∷ sum col0 ∷ sum col1 ∷ [])
          (plus (plus nought (times unit x1)) (times (times unit x0) x2)) (plus x1 (times x0 x2))
          refl

module _ {ℓ} {F : Type ℓ} {C S : Type 0} ⦃f : Field F⦄ (c : Challenger F C S) ⦃p : PrimeField32 F⦄
    (start : S) (to_vec : SumcheckProof F → List ℕ ⊎ List ℕ) where
  -- A response whose envelope opens to an encoded proof of a claim about the request's columns.
  pub record Genuine (req : ProofRequest) (permit owsl : Bool) (r : SealedProofResponse)
      : Type ℓ where
    pub permitted : permit ≡ true
    pub consented : owsl ≡ true
    pub n : ℕ
    pub rows0 : length req.col0 ≡ 2 ^ n
    pub rows1 : length req.col1 ≡ 2 ^ n
    pub proof : SumcheckProof F
    pub payload : List ℕ
    pub encoded : to_vec proof ≡ inl payload
    pub opened : open_envelope r.envelope v0_6_1 ≡ ProofEnvelope.ok payload
    pub sealed_claim : (r.envelope).claim ≡ p.as_canonical_u32 proof.claimed_sum
    pub claim :
        proof.claimed_sum
        ≡ sum (map p.of_u32 req.col0) ⊕ p.of_u32 req.alpha ⊗ sum (map p.of_u32 req.col1)
    pub accepted :
        sumcheck_verify c proof (transcript_of c start to_vec req) (
          folded_oracle (record {
            values = table_of c start to_vec req;
            n_vars = n;
            alpha = p.of_u32 req.alpha;
          }))
        ≡ some true
    pub same_job : r.job_id ≡ req.job_id
    pub status : r.status ≡ codes "success"

  shipped-Genuine :
      (req : ProofRequest) (n : ℕ) (r : SealedProofResponse) (encoded : List ℕ ⊎ List ℕ)
      → length req.col0 < 2 ^ 64
      → length req.col0 ≡ 2 ^ n
      → length req.col1 ≡ 2 ^ n
      → to_vec (proof_of c start to_vec req n) ≡ encoded
      → ship c start to_vec req (proof_of c start to_vec req n) encoded ≡ success r
      → Genuine req true true r
  unfolding ship seal_061 open_envelope folded_oracle
  shipped-Genuine req n r (inr e) small h0 h1 made h = absurd cc
  shipped-Genuine req n r (inl payload) small h0 h1 made h =
      let same = success_injective h in
      let cs : Columns (length req.col0) (columns_of c start to_vec req) =
        request-Columns c start to_vec req (length req.col0) refl (h1 ∙ sym h0) in
      let size : length (table_of c start to_vec req) ≡ 2 ^ n =
        length-add_columns (length req.col0) (p.of_u32 req.alpha) f.one
          (replicate (length req.col0) f.zero) (length-replicate (length req.col0) f.zero) cs
        ∙ h0 in
      let less : n < 64 = small_exponent c start to_vec n (length req.col0) h0 small in
      record {
        permitted = refl;
        consented = refl;
        n = n;
        rows0 = h0;
        rows1 = h1;
        proof = proof_of c start to_vec req n;
        payload = payload;
        encoded = made;
        opened =
            ap (λ q. open_envelope (SealedProofResponse.envelope q) v0_6_1) (sym same)
            ∙ (open_envelope-seal (p.as_canonical_u32 (sum (table_of c start to_vec req)))
                payload).0;
        sealed_claim = ap (λ q. (SealedProofResponse.envelope q).claim) (sym same);
        claim =
            sum-folded (p.of_u32 req.alpha) (map p.of_u32 req.col0) (map p.of_u32 req.col1)
              (length req.col0) (length-map req.col0 p.of_u32)
              (length-map req.col1 p.of_u32 ∙ h1 ∙ sym h0);
        accepted =
            (self_check c (evaluate_mle-Extends (table_of c start to_vec req) n less size)
              (transcript_of c start to_vec req)).2;
        same_job = ap SealedProofResponse.job_id (sym same);
        status = ap SealedProofResponse.status (sym same);
      }
    where
      success_injective : {a b : SealedProofResponse} → success a ≡ success b → a ≡ b
      success_injective h = cc

  answer-Genuine :
      (req : ProofRequest) (permit owsl : Bool) (answer : Response) (r : SealedProofResponse)
      → length req.col0 < 2 ^ 64
      → Answer c start to_vec req permit owsl answer
      → answer ≡ success r
      → Genuine req permit owsl r
  answer-Genuine req permit owsl answer r small busy h = absurd cc
  answer-Genuine req permit owsl answer r small denied h = absurd cc
  answer-Genuine req permit owsl answer r small (empty e) h = absurd cc
  answer-Genuine req permit owsl answer r small (mismatch ne) h = absurd cc
  answer-Genuine req permit owsl answer r small (ragged ne) h = absurd cc
  answer-Genuine req permit owsl answer r small (proved n h0 h1) h =
      shipped-Genuine req n r (to_vec (proof_of c start to_vec req n)) small h0 h1 refl h

  -- A request of fewer than 2^64 rows that the handler answers with success had a permit and the
  -- gate's consent, and two columns of the same power of two of rows; the envelope opens to the
  -- encoded bytes of a proof that sumcheck_verify accepts for the folded table, whose claimed sum
  -- is the sum of the first column plus alpha times the sum of the second, and the envelope's claim
  -- is that sum's canonical value.
  pub prove_handler-Genuine :
      (permit owsl : Bool) (req : ProofRequest) (r : SealedProofResponse)
      → length req.col0 < 2 ^ 64
      → prove_handler c start to_vec permit owsl req ≡ some (success r)
      → Genuine req permit owsl r
  prove_handler-Genuine permit owsl req r small made =
      let (answer, answered, is_answer, never) =
        prove_handler-Answer c start to_vec permit owsl req small in
      answer-Genuine req permit owsl answer r small is_answer (eq_of_some (sym answered ∙ made))
