-- ===== src/Merkle.antt =====
-- crates/oracle-layer/src/merkle.rs: single-column commitments over the Mmcs of Plonky3. The Mmcs is
-- not part of the repository: `Mmcs` is a parameter, with the documented behaviour that an opening of
-- a committed column verifies.
use tscp_anchor.Prelude.{
  ℕ, ◌≡◌, ◌<◌, Bool, true, Option, some, List, length, get_elem?, ltb, check, ◌>>◌, ◌==◌, not,
}
use tscp_anchor.Prelude.Bits.{is_power_of_two}

pub record Mmcs {ℓ} (F : Type ℓ) (C P : Type 0) : Type ℓ where
  pub commit_vec : List F → C
  -- `open_batch`: the opened value and the proof
  pub open_batch : ℕ → List F → F × P
  -- `verify_batch` at width 1: commitment, height, index, value, proof
  pub verify_batch : C → ℕ → ℕ → F → P → Bool
  pub commitment_eq : C → C → Bool
  pub open_batch-value :
      (leaves : List F) (i : ℕ) (a : F) → get_elem? leaves i ≡ some a → (open_batch i leaves).0 ≡ a
  pub verify-open_batch :
      (leaves : List F) (i : ℕ)
      → i < length leaves
      → verify_batch
          (commit_vec leaves)
          (length leaves)
          i
          (open_batch i leaves).0
          (open_batch i leaves).1
        ≡ true
  pub commitment_eq_refl : (c : C) → commitment_eq c c ≡ true

pub record MerkleTree {ℓ} (F : Type ℓ) (C : Type 0) : Type ℓ where
  pub leaves : List F
  pub commitment : C

pub record MerkleOpening {ℓ} (F : Type ℓ) (P : Type 0) : Type ℓ where
  pub leaf_index : ℕ
  pub leaf_value : F
  pub proof : P

unfoldable pub root {ℓ} : {F : Type ℓ} {C : Type 0} → MerkleTree F C → C
root t = t.commitment

module _ {ℓ} {F : Type ℓ} {C P : Type 0} (m : Mmcs F C P) where
  unfoldable pub build : List F → Option (MerkleTree F C)
  build leaves = do
    check (is_power_of_two (length leaves))
    check (not (length leaves == 0))
    some (record { leaves = leaves; commitment = m.commit_vec leaves })

  unfoldable pub open_leaf : MerkleTree F C → ℕ → Option (MerkleOpening F P)
  open_leaf t index = do
    check (ltb index (length t.leaves))
    let opening = m.open_batch index t.leaves
    some (record { leaf_index = index; leaf_value = opening.0; proof = opening.1 })

  unfoldable pub verify_opening : C → ℕ → MerkleOpening F P → Bool
  verify_opening commitment leaf_count opening =
      m.verify_batch commitment leaf_count opening.leaf_index opening.leaf_value opening.proof
