-- ===== src/FriQuery/Folds.antt =====
-- The commitment of `fri_prove` of crates/oracle-layer/src/fri_query.rs on the values of a
-- polynomial.
use mathlib.Core.Path.{subst}
use tscp_anchor.Prelude.{
  ℕ, zero, suc, ◌^◌, ◌≤◌, ◌≡◌, refl, sym, ap, ◌∙◌, some, List, [], ◌∷◌, map, length, length-map,
  get_elem?, get_elem?-some, check, check-eq-some, ◌==◌, ==_iff, >>=-eq-some, eq_of_some, arith,
}
use tscp_anchor.Prelude.Bits.{is_power_of_two, trailing_zeros, trailing_zeros-pow, pow_two-suc}
use tscp_anchor.Field.{Field, PrimeField32}
use tscp_anchor.Field.Ring.{ring, normal, x0, x1, plus, times, nought}
use tscp_anchor.Quotient.{eval_poly_horner}
use tscp_anchor.Merkle.{Mmcs, MerkleTree, build, root}
use tscp_anchor.Fri.{fri_fold_step, fold_domain}
use tscp_anchor.Fri.Poly.{
  IsTable, IsSymmetric, fold_coeffs, length-fold_coeffs, fri_fold_step-IsTable,
}
use tscp_anchor.FriProtocol.{Challenger, FriCommitment}
use tscp_anchor.FriQuery.{FriProof, derive_betas, prove_loop, query_loop, fri_prove}
use tscp_anchor.FriQuery.Chain.{build_root}

module _ {ℓ} {F : Type ℓ} ⦃f : Field F⦄ where
  -- A domain each of whose first foldings has its second half opposite to the first.
  pub data Symmetric : ℕ → List F → Type ℓ where
    ends : (d : List F) → Symmetric 0 d
    folds :
        (rounds : ℕ) (d : List F)
        → IsSymmetric d
        → Symmetric rounds (fold_domain d)
        → Symmetric (suc rounds) d

  -- A polynomial folded with one beta after the other.
  abbrev pub folded_coeffs : List F → List F → List F
  folded_coeffs [] cs = cs
  folded_coeffs (beta ∷ betas) cs = folded_coeffs betas (fold_coeffs beta cs)

  -- The lowest coefficient.
  abbrev pub constant_of : List F → F
  constant_of [] = f.zero
  constant_of (a ∷ cs) = a

  eval-constant : (cs : List F) (x : F) → length cs ≤ 1 → eval_poly_horner cs x ≡ constant_of cs
  unfolding eval_poly_horner normal
  eval-constant [] x h = refl
  eval-constant (a ∷ []) x h = ring (x ∷ a ∷ []) (plus (times nought x0) x1) x1 refl
  eval-constant (a ∷ b ∷ cs) x h = absurd (omega arith)

module _ {ℓ} {F : Type ℓ} {C P : Type 0} ⦃f : Field F⦄ (m : Mmcs F C P) where
  -- The roots commit to the values of the polynomial folded with the betas so far, each over its
  -- folded domain, and the last values are those of the last.
  pub data Foldings : List F → List F → List F → List C → List F → Type ℓ where
    ended : {cs d last : List F} → IsTable cs d last → Foldings cs d [] [] last
    folded :
        {cs d betas last : List F} {roots : List C} (beta : F) (e : List F)
        → IsTable (fold_coeffs beta cs) (fold_domain d) e
        → Foldings (fold_coeffs beta cs) (fold_domain d) betas roots last
        → Foldings cs d (beta ∷ betas) (m.commit_vec e ∷ roots) last

  -- The polynomial of the last values.
  record Ended (cs betas last : List F) (roots : List C) : Type ℓ where
    domain : List F
    table : IsTable (folded_coeffs betas cs) domain last
    same_count : length betas ≡ length roots

  Foldings-Ended :
      {cs d betas last : List F} {roots : List C}
      → Foldings cs d betas roots last
      → Ended cs betas last roots
  Foldings-Ended {d} (ended t) = record { domain = d; table = t; same_count = refl }
  Foldings-Ended (folded beta e t fs) =
      let r = Foldings-Ended fs in
      record { domain = r.domain; table = r.table; same_count = ap suc r.same_count }

  module _ {S : Type 0} (c : Challenger F C S) where
    prove_loop-Foldings :
        (rounds : ℕ) (cs e d : List F) (s : S) (trees : List (MerkleTree F C)) (last : List F)
        (after : S)
        → IsTable cs d e
        → Symmetric rounds d
        → prove_loop m c rounds e d s ≡ some (trees, last, after)
        → Foldings cs d (derive_betas c (map root trees) s).0 (map root trees) last
          × (length trees ≡ rounds)
    unfolding prove_loop derive_betas
    prove_loop-Foldings zero cs e d s trees last after t sym_d h =
        subst
          (λ r.
            Foldings cs d (derive_betas c (map root r.0) s).0 (map root r.0) r.1 × (length r.0 ≡ 0))
          (eq_of_some h) (ended t, refl)
    prove_loop-Foldings (suc rounds) cs e d s trees last after t (folds _ _ sym_d more) h =
        let beta : F = (c.sample s).0 in
        let (e', made, h1) = >>=-eq-some (fri_fold_step e d beta) _ h in
        let (tree, built, h2) = >>=-eq-some (build m e') _ h1 in
        let (rest, ran, h3) =
          >>=-eq-some
            (prove_loop m c rounds e' (fold_domain d)
              (c.observe_commitment (c.sample s).1 (root tree)))
            _ h2 in
        let (table, size) = fri_fold_step-IsTable cs e d beta e' t sym_d made in
        let (fs, count) =
          prove_loop-Foldings rounds (fold_coeffs beta cs) e' (fold_domain d) _ rest.0 rest.1 rest.2
            table more ran in
        subst
          (λ r.
            Foldings cs d (derive_betas c (map root r.0) s).0 (map root r.0) r.1
            × (length r.0 ≡ suc rounds))
          (eq_of_some h3)
          (
            subst
                (λ r.
                  Foldings cs d
                    (beta
                      ∷ (derive_betas c (map root rest.0)
                          (c.observe_commitment (c.sample s).1 (root tree))).0)
                    (r ∷ map root rest.0) rest.1)
                (sym (build_root m e' tree built)) (folded beta e' table fs),
            ap suc count,
          )

  length-folded_coeffs :
      (betas cs : List F) → length cs ≤ 2 ^ length betas → length (folded_coeffs betas cs) ≤ 1
  length-folded_coeffs [] cs h = h
  length-folded_coeffs (beta ∷ betas) cs h =
      length-folded_coeffs betas (fold_coeffs beta cs)
        (omega (arith, length-fold_coeffs beta cs, h, pow_two-suc (length betas)))

  -- A proof whose roots commit to the foldings of a polynomial with the betas that the verifier
  -- derives, and whose final value is the constant that they leave.
  pub record Folded {S : Type 0} (c : Challenger F C S) (cs e d : List F) (s : S)
      (proof : FriProof F C P) (rounds : ℕ) : Type ℓ where
    pub later : List C
    pub roots : proof.commitment.roots ≡ m.commit_vec e ∷ later
    pub count : length later ≡ rounds
    pub last : List F
    pub foldings :
        Foldings cs d (derive_betas c later (c.observe_commitment s (m.commit_vec e))).0 later last
    pub final :
        proof.commitment.final_value
        ≡ constant_of
            (folded_coeffs (derive_betas c later (c.observe_commitment s (m.commit_vec e))).0 cs)

  module _ {S : Type 0} ⦃p : PrimeField32 F⦄ (c : Challenger F C S) where
    -- The last fold's single value.
    final_constant :
        (cs betas last : List F) (final : F)
        → (d : List F) → IsTable (folded_coeffs betas cs) d last
        → length cs ≤ 2 ^ length betas
        → length last ≡ 1
        → get_elem? last 0 ≡ some final
        → final ≡ constant_of (folded_coeffs betas cs)
    final_constant cs betas last final d t small one got =
        let (x, gx) = get_elem?-some d 0 (omega (arith, t.size, one)) in
        eq_of_some (sym got ∙ t.values 0 x gx)
        ∙ eval-constant (folded_coeffs betas cs) x (length-folded_coeffs betas cs small)

    -- On the 2^rounds values of a polynomial of no more coefficients, over a domain each of whose
    -- foldings before the last has its second half opposite to the first, a proof that fri_prove
    -- returns holds one root more than there are rounds: each commits to the values of the
    -- polynomial folded with the betas that the verifier derives from the roots before it, and the
    -- final value is the constant that the last fold leaves.
    pub fri_prove-Folded :
        (rounds : ℕ) (cs e d : List F) (s after : S) (num_queries : ℕ) (proof : FriProof F C P)
        → length e ≡ 2 ^ rounds
        → length cs ≤ 2 ^ rounds
        → IsTable cs d e
        → Symmetric rounds d
        → fri_prove m c e d s num_queries ≡ some (proof, after)
        → Folded c cs e d s proof rounds
    unfolding fri_prove
    fri_prove-Folded rounds cs e d s after num_queries proof he hc t sym_d h =
        let (u, power, h1) = >>=-eq-some (check (is_power_of_two (length e))) _ h in
        let (tree, built, h2) = >>=-eq-some (build m e) _ h1 in
        let (rest, ran, h3) =
          >>=-eq-some
            (prove_loop m c (trailing_zeros (length e)) e d (c.observe_commitment s (root tree))) _
            h2 in
        let (u', single, h4) = >>=-eq-some (check (length rest.1 == 1)) _ h3 in
        let (final, got, h5) = >>=-eq-some (get_elem? rest.1 0) _ h4 in
        let (queries, asked, h6) =
          >>=-eq-some (query_loop m c num_queries tree rest.0 rest.2) _ h5 in
        made tree rest.0 rest.1 rest.2 final (ap (λ r. (r.0).commitment) (sym (eq_of_some h6)))
          (build_root m e tree built)
          (ap (λ k. prove_loop m c k e d (c.observe_commitment s (root tree)))
              (sym (trailing_zeros-pow rounds) ∙ ap trailing_zeros (sym he))
            ∙ ran)
          ((==_iff _ _).0 (check-eq-some (length rest.1 == 1) single)) got
      where
        made :
            (tree : MerkleTree F C) (trees : List (MerkleTree F C)) (last : List F) (s' : S)
            (final : F)
            → proof.commitment ≡ record { roots = root tree ∷ map root trees; final_value = final }
            → root tree ≡ m.commit_vec e
            → prove_loop m c rounds e d (c.observe_commitment s (root tree))
              ≡ some (trees, last, s')
            → length last ≡ 1
            → get_elem? last 0 ≡ some final
            → Folded c cs e d s proof rounds
        made tree trees last s' final commitment first ran one got =
            let (fs, count) =
              prove_loop-Foldings c rounds cs e d (c.observe_commitment s (m.commit_vec e)) trees
                last s' t sym_d
                (ap (λ r. prove_loop m c rounds e d (c.observe_commitment s r)) (sym first)
                  ∙ ran) in
            let r = Foldings-Ended fs in
            record {
              later = map root trees;
              roots = ap FriCommitment.roots commitment ∙ ap (λ r. r ∷ map root trees) first;
              count = length-map trees root ∙ count;
              last = last;
              foldings = fs;
              final =
                  ap FriCommitment.final_value commitment
                  ∙ final_constant cs
                      (derive_betas c (map root trees) (c.observe_commitment s (m.commit_vec e))).0
                      last final r.domain r.table
                      (subst (λ k. length cs ≤ 2 ^ k)
                        (sym (r.same_count ∙ length-map trees root ∙ count)) hc)
                      one got;
            }
