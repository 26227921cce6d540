-- ===== src/FriProtocol.antt =====
-- crates/oracle-layer/src/fri_protocol.rs: the commit phase. The Fiat-Shamir transcript of Plonky3
-- is a parameter.
pub mod Agree
use tscp_anchor.Prelude.{
  ℕ, zero, suc, Bool, true, false, ◌&&◌, Option, some, List, [], ◌∷◌, length, get_elem?, ◌==◌,
  check, ◌>>=◌, ◌>>◌,
}
use tscp_anchor.Prelude.Bits.{is_power_of_two, trailing_zeros}
use tscp_anchor.Field.{Field}
use tscp_anchor.Merkle.{Mmcs, build, root}
use tscp_anchor.Fri.{fri_fold_step, fold_domain}

-- `p3_challenger::DuplexChallenger`: the transcript's state absorbs and is sampled.
pub record Challenger {ℓ} (F : Type ℓ) (C : Type 0) (S : Type 0) : Type ℓ where
  pub observe : S → F → S
  pub observe_commitment : S → C → S
  pub sample : S → F × S

pub record FriCommitment {ℓ} (F : Type ℓ) (C : Type 0) : Type ℓ where
  pub roots : List C
  pub final_value : F

-- `Vec`'s equality, over that of the commitments.
unfoldable pub roots_eq : {C : Type 0} → (C → C → Bool) → List C → List C → Bool
roots_eq eq [] [] = true
roots_eq eq (a ∷ as') (b ∷ bs) = eq a b && roots_eq eq as' bs
roots_eq eq _ _ = false

module _ {ℓ} {F : Type ℓ} {C P : Type 0} ⦃f : Field F⦄ (m : Mmcs F C P) where
  -- `for &beta in betas`: the roots pushed, and the last evaluations.
  unfoldable pub commit_loop : List F → List F → List F → Option (List C × List F)
  commit_loop evals domain [] = some ([], evals)
  commit_loop evals domain (beta ∷ betas) = do
    folded ← fri_fold_step evals domain beta
    tree ← build m folded
    rest ← commit_loop folded (fold_domain domain) betas
    some (root tree ∷ rest.0, rest.1)

  unfoldable pub fri_commit : List F → List F → List F → Option (FriCommitment F C)
  fri_commit evals domain betas = do
    check (is_power_of_two (length evals))
    check (length betas == trailing_zeros (length evals))
    initial_tree ← build m evals
    rest ← commit_loop evals domain betas
    check (length rest.1 == 1)
    final ← get_elem? rest.1 0
    some (record { roots = root initial_tree ∷ rest.0; final_value = final })

  unfoldable pub same_commitment : FriCommitment F C → FriCommitment F C → Bool
  unfolding roots_eq
  same_commitment a b =
      roots_eq m.commitment_eq a.roots b.roots && f.beq a.final_value b.final_value

  unfoldable pub fri_verify_commitment : List F → List F → List F → FriCommitment F C → Option Bool
  fri_verify_commitment evals domain betas claimed = do
    recomputed ← fri_commit evals domain betas
    some (same_commitment recomputed claimed)

  module _ {S : Type 0} (c : Challenger F C S) where
    -- `for _ in 0..expected_rounds`
    unfoldable pub transcript_loop : ℕ → List F → List F → S → Option (List C × List F × S)
    transcript_loop zero evals domain s = some ([], evals, s)
    transcript_loop (suc rounds) evals domain s = do
      let (beta, s1) = c.sample s
      folded ← fri_fold_step evals domain beta
      tree ← build m folded
      rest ←
          transcript_loop rounds folded (fold_domain domain) (c.observe_commitment s1 (root tree))
      some (root tree ∷ rest.0, rest.1, rest.2)

    -- The commitment, and the transcript left behind.
    unfoldable pub fri_commit_transcript : List F → List F → S → Option (FriCommitment F C × S)
    fri_commit_transcript evals domain s = do
      check (is_power_of_two (length evals))
      initial_tree ← build m evals
      rest ←
          transcript_loop (trailing_zeros (length evals)) evals domain
            (c.observe_commitment s (root initial_tree))
      check (length rest.1 == 1)
      final ← get_elem? rest.1 0
      some (record { roots = root initial_tree ∷ rest.0; final_value = final }, rest.2)

    unfoldable pub fri_verify_commitment_transcript :
        List F → List F → S → FriCommitment F C → Option (Bool × S)
    fri_verify_commitment_transcript evals domain s claimed = do
      recomputed ← fri_commit_transcript evals domain s
      some (same_commitment recomputed.0 claimed, recomputed.1)
