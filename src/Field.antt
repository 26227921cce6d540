-- ===== src/Field.antt =====
-- `p3_field::Field`, the interface of the field that every component computes in. The crate is not
-- part of the repository: the record states its documented behaviour, and is a parameter of the
-- model. `inverse` panics at zero (`none`).
pub mod Ring
pub mod Five
pub mod Thirteen
pub mod Laws
use tscp_anchor.Prelude.{ℕ, ◌^◌, ◌<◌, ◌≡◌, ◌≢◌, ◌↔◌, Bool, true, Option, none, some}

pub record Field {ℓ} (F : Type ℓ) : Type ℓ where
  pub zero : F
  pub one : F
  pub add : F → F → F
  pub sub : F → F → F
  pub mul : F → F → F
  pub neg : F → F
  pub inverse : F → Option F
  pub beq : F → F → Bool
  pub add_assoc : (a b c : F) → add (add a b) c ≡ add a (add b c)
  pub add_comm : (a b : F) → add a b ≡ add b a
  pub zero-add : (a : F) → add zero a ≡ a
  pub add-neg : (a : F) → add a (neg a) ≡ zero
  pub sub_lem : (a b : F) → sub a b ≡ add a (neg b)
  pub mul_assoc : (a b c : F) → mul (mul a b) c ≡ mul a (mul b c)
  pub mul_comm : (a b : F) → mul a b ≡ mul b a
  pub one-mul : (a : F) → mul one a ≡ a
  pub mul-add : (a b c : F) → mul a (add b c) ≡ add (mul a b) (mul a c)
  pub one-ne-zero : one ≢ zero
  pub inverse-zero : inverse zero ≡ none
  pub inverse-some : (a : F) → a ≢ zero → (b : F) × (inverse a ≡ some b) × (mul a b ≡ one)
  pub beq_iff : (a b : F) → (beq a b ≡ true) ↔ (a ≡ b)

-- `p3_field::PrimeField32`: the canonical representative of an element, below the order, and
-- `BabyBear::new` / `from_u32`, which reduces.
pub record PrimeField32 {ℓ} (F : Type ℓ) : Type ℓ where
  pub order : ℕ
  pub of_u32 : ℕ → F
  pub as_canonical_u32 : F → ℕ
  pub canonical-lt : (a : F) → as_canonical_u32 a < order
  pub of_u32-canonical : (a : F) → of_u32 (as_canonical_u32 a) ≡ a
  pub canonical-of_u32 : (n : ℕ) → n < order → as_canonical_u32 (of_u32 n) ≡ n
  pub order-lt : order < 2 ^ 32

module _ {ℓ} {F : Type ℓ} ⦃f : Field F⦄ where
  infixl 65 ◌⊕◌ ◌⊖◌
  infixl 70 ◌⊗◌
  abbrev pub ◌⊕◌ : F → F → F
  a ⊕ b = f.add a b

  abbrev pub ◌⊖◌ : F → F → F
  a ⊖ b = f.sub a b

  abbrev pub ◌⊗◌ : F → F → F
  a ⊗ b = f.mul a b

  -- `F::from_u64`: the sum of that many ones.
  unfoldable pub from_u64 : ℕ → F
  from_u64 ℕ.zero = f.zero
  from_u64 (ℕ.suc n) = f.add (from_u64 n) f.one

  -- `exp_u64`.
  unfoldable pub exp : F → ℕ → F
  exp a ℕ.zero = f.one
  exp a (ℕ.suc n) = f.mul a (exp a n)
