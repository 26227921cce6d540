-- ===== src/DeepAliFri/Wiring.antt =====
-- What `deep_ali_fri_prove` of crates/prover-server/src/deep_ali_fri.rs commits to, and that
-- `deep_ali_fri_verify` accepts it.
use tscp_anchor.Prelude.{
  ℕ, zero, suc, ◌+◌, ◌^◌, ◌≤◌, ◌<◌, ◌≡◌, ◌≢◌, refl, sym, ap, ◌∙◌, false, some, List, length,
  get_elem?, get_elem?-get_or, check, ◌==◌, >>=-eq-some, eq_of_some, arith,
}
use tscp_anchor.Prelude.Bits.{is_power_of_two, trailing_zeros}
use tscp_anchor.Field.{Field, PrimeField32, exp, from_u64}
use tscp_anchor.Quotient.{eval_poly_horner}
use tscp_anchor.Merkle.{Mmcs, build, root}
use tscp_anchor.Fri.Fold.{NonZero}
use tscp_anchor.FriProtocol.{Challenger}
use tscp_anchor.FriQuery.{FriProof, prove_loop, query_loop, fri_prove}
use tscp_anchor.FriQuery.Chain.{build_root}
use tscp_anchor.FriQuery.Accept.{fri_verify-fri_prove}
use tscp_anchor.Fft.Evaluate.{Evaluations, fft-Evaluations}
use tscp_anchor.Fri.Poly.{get_elem?-lt}
use tscp_anchor.Fft.Interpolate.{root-ne-zero}
use tscp_anchor.DeepAliFri.{
  DeepAliFriOutput, ok, resize, powers_loop, two_adic_domain, prove_padded, deep_ali_fri_prove,
  deep_ali_fri_verify,
}
use tscp_anchor.FriQuery.Folds.{Folded, fri_prove-Folded}
use tscp_anchor.DeepAliFri.Symmetry.{powers_loop-Symmetric}
use tscp_anchor.DeepAliFri.Domain.{
  TwoAdic, length-powers_loop, powers_loop_entry, exp-ne-zero, horner-resize, length-resize,
  padded_size, primitive_root_half,
}

powers_loop-NonZero {ℓ} :
    {F : Type ℓ} ⦃f : Field F⦄ (w : F) (i n : ℕ) → w ≢ f.zero → NonZero (powers_loop w i n)
unfolding powers_loop
powers_loop-NonZero w i zero h j x e z = cc
powers_loop-NonZero w i (suc n) h zero x e z = exp-ne-zero w i h (eq_of_some e ∙ z)
powers_loop-NonZero w i (suc n) h (suc j) x e z = powers_loop-NonZero w (suc i) n h j x e z

module _ {ℓ} {F : Type ℓ} {C P S : Type 0} ⦃f : Field F⦄ ⦃p : PrimeField32 F⦄ (m : Mmcs F C P)
    (c : Challenger F C S) where
  -- The first root of a returned proof is the commitment to the evaluations.
  fri_prove_root :
      (evals d : List F) (s after : S) (n : ℕ) (proof : FriProof F C P)
      → fri_prove m c evals d s n ≡ some (proof, after)
      → get_elem? proof.commitment.roots 0 ≡ some (m.commit_vec evals)
  unfolding fri_prove
  fri_prove_root evals d s after n proof h =
      let (u, power, h1) = >>=-eq-some (check (is_power_of_two (length evals))) _ h in
      let (tree, built, h2) = >>=-eq-some (build m evals) _ h1 in
      let (rest, ran, h3) =
        >>=-eq-some
          (prove_loop m c (trailing_zeros (length evals)) evals d
            (c.observe_commitment s (root tree)))
          _ h2 in
      let (u', single, h4) = >>=-eq-some (check (length rest.1 == 1)) _ h3 in
      let (final, got, h5) = >>=-eq-some (get_elem? rest.1 0) _ h4 in
      let (queries, asked, h6) = >>=-eq-some (query_loop m c n tree rest.0 rest.2) _ h5 in
      ap (λ r. get_elem? ((r.0).commitment).roots 0) (sym (eq_of_some h6))
      ∙ ap some (build_root m evals tree built)

  -- An output whose proof says of the polynomial what FriQuery/Folds says, over the output's domain.
  pub record Wired (coeffs : List F) (s : S) (out : DeepAliFriOutput F C P) : Type ℓ where
    pub evals : List F
    pub committed : get_elem? out.proof.commitment.roots 0 ≡ some (m.commit_vec evals)
    pub size : length out.domain ≡ out.domain_size
    pub evals_size : length evals ≡ out.domain_size
    pub values :
        (i : ℕ) (x : F)
        → get_elem? out.domain i ≡ some x
        → get_elem? evals i ≡ some (eval_poly_horner coeffs x)
    pub quotient_size : out.quotient_len ≡ length coeffs
    pub room : length coeffs ≤ out.domain_size
    pub rounds : ℕ
    pub full : out.domain_size ≡ 2 ^ rounds
    pub folded : Folded m c coeffs evals out.domain s out.proof rounds

  module _ (t : TwoAdic F) (coeffs : List F) (s : S) (num_queries k : ℕ)
      (fits : length coeffs ≤ 2 ^ suc k) (deep : k ≤ t.depth) (two : from_u64 2 ≢ f.zero) where
    padded_run :
        (out : DeepAliFriOutput F C P) × (after : S) × (prove_padded m c coeffs s num_queries
            (2 ^ suc k)
          ≡ some (ok out, after))
        × (deep_ali_fri_verify m c out s num_queries ≡ some (ok tt))
        × Wired coeffs s out
    unfolding prove_padded deep_ali_fri_verify two_adic_domain
    padded_run =
        let n : ℕ = 2 ^ suc k in
        let padded : List F = resize (2 ^ suc k) f.zero coeffs in
        let size : length padded ≡ 2 ^ suc k = length-resize (2 ^ suc k) coeffs fits in
        let (w, root_made, turn) = primitive_root_half t k deep in
        let (evals, made, v) = fft-Evaluations padded w k size turn in
        let domain : List F = powers_loop w 0 (2 ^ suc k) in
        let (proof, after, proved, accepted) =
          fri_verify-fri_prove m c k evals domain s num_queries two
            (powers_loop-NonZero w 0 (2 ^ suc k) (root-ne-zero k w turn)) (v.size ∙ size)
            (length-powers_loop w 0 (2 ^ suc k)) in
        (
          record {
            proof = proof;
            domain = domain;
            quotient_len = length coeffs;
            domain_size = 2 ^ suc k;
          },
          after,
          rw (root_made, made, proved) refl,
          rw accepted refl,
          record {
            evals = evals;
            committed = fri_prove_root evals domain s after num_queries proof proved;
            size = length-powers_loop w 0 (2 ^ suc k);
            evals_size = v.size ∙ size;
            values = λ i x e. value w evals v size i x e;
            quotient_size = refl;
            room = fits;
            rounds = suc k;
            full = refl;
            folded =
                fri_prove-Folded m c (suc k) coeffs evals domain s after num_queries proof
                  (v.size ∙ size) fits
                  (record {
                    size = v.size ∙ size ∙ sym (length-powers_loop w 0 (2 ^ suc k));
                    values = λ i x e. value w evals v size i x e;
                  })
                  (powers_loop-Symmetric k w turn) proved;
          },
        )
      where
        value :
            (w : F) (evals : List F)
            → Evaluations (resize (2 ^ suc k) f.zero coeffs) w evals
            → length (resize (2 ^ suc k) f.zero coeffs) ≡ 2 ^ suc k
            → (i : ℕ) (x : F) → get_elem? (powers_loop w 0 (2 ^ suc k)) i ≡ some x
            → get_elem? evals i ≡ some (eval_poly_horner coeffs x)
        value w evals v size i x e =
            let less : i < 2 ^ suc k = omega (
              arith,
              get_elem?-lt (powers_loop w 0 (2 ^ suc k)) i e,
              length-powers_loop w 0 (2 ^ suc k),
            ) in
            let point : exp w (0 + i) ≡ x =
              eq_of_some (sym (powers_loop_entry w 0 (2 ^ suc k) i less) ∙ e) in
            get_elem?-get_or evals i f.zero (omega (arith, v.size))
            ∙ ap some (
                v.values i (omega arith)
                ∙ horner-resize (2 ^ suc k) coeffs (exp w i) fits
                ∙ ap (eval_poly_horner coeffs)
                    (ap (exp w) {x = i} {y = 0 + i} (omega arith) ∙ point))

  -- Within the depth of the field's roots, where 2 is not zero, a quotient that is not empty is
  -- proved, its output verifies from the same transcript, the first root commits to the quotient's
  -- values over the output's domain, each later root to the values of the quotient folded with the
  -- betas that the verifier derives from the roots before it, and the final value is the constant
  -- that the last fold leaves.
  pub deep_ali_fri_verify-deep_ali_fri_prove :
      (t : TwoAdic F) (coeffs : List F) (s : S) (num_queries : ℕ)
      → 0 < length coeffs
      → length coeffs ≤ 2 ^ suc t.depth
      → from_u64 2 ≢ f.zero
      → (out : DeepAliFriOutput F C P) × (after : S) × (deep_ali_fri_prove m c coeffs s num_queries
          ≡ some (ok out, after))
        × (deep_ali_fri_verify m c out s num_queries ≡ some (ok tt))
        × Wired coeffs s out
  unfolding deep_ali_fri_prove
  deep_ali_fri_verify-deep_ali_fri_prove t coeffs s num_queries present within two =
      let (k, padded, fits, deep) = padded_size (length coeffs) t.depth present within in
      let (out, after, proved, accepted, wired) =
        padded_run t coeffs s num_queries k fits deep two in
      (out, after, rw (not_empty (length coeffs) present, padded) proved, accepted, wired)
    where
      not_empty : (n : ℕ) → 0 < n → (n == 0) ≡ false
      not_empty n h = ground arith
