-- ===== src/DeepAli.antt =====
-- crates/prover-server/src/deep_ali.rs: the soundness budget, and the division of a column polynomial
-- by a linear factor, from its coefficients on.
pub mod Budget
pub mod Ledger
pub mod Synthetic
pub mod Linear
use tscp_anchor.Prelude.{
  ℕ, zero, suc, ◌+◌, ◌-◌, ◌^◌, Bool, true, false, not, Option, none, some, List, [], ◌∷◌, length,
  get_elem?, write, replicate, ltb, leb, ◌==◌, if◌then◌else◌, ◌>>=◌,
}
use tscp_anchor.Prelude.Bits.{sub_usize}
use tscp_anchor.Field.{Field, PrimeField32, ◌⊕◌, ◌⊗◌}
use tscp_anchor.FriProtocol.{Challenger}
use tscp_anchor.Quotient.{eval_poly_horner}

pub record SoundnessAccumulator : Type 0 where
  pub bits_consumed : ℕ
  pub bits_remaining : ℕ
  pub round : ℕ

-- The errors that the operations return; the texts and field elements of messages are left out, and
-- `InvalidDeepPoint` is one constructor for each of its uses that a caller can tell apart.
pub data DeepAliError : Type 0 where
  soundness_depleted : ℕ → ℕ → DeepAliError  -- requested, remaining
  accumulator_encoding interpolation_failure quotient_remainder_non_zero : DeepAliError
  owsl_halt invalid_deep_point degree_exceeded : DeepAliError
  constraint_violation trace_evaluation_failure : ℕ → DeepAliError  -- its index

pub data Result {ℓ} (A : Type ℓ) : Type ℓ where
  ok : A → Result A
  err : DeepAliError → Result A

-- `?` on a result of code that may also panic.
infixl 5 ◌>>?◌
abbrev pub ◌>>?◌ {ℓ κ} :
    {A : Type ℓ} {B : Type κ} → Option (Result A) → (A → Option (Result B)) → Option (Result B)
none >>? k = none
some (ok a) >>? k = k a
some (err e) >>? k = some (err e)

unfoldable pub new : ℕ → SoundnessAccumulator
new lambda = record { bits_consumed = 0; bits_remaining = lambda; round = 0 }

-- The result, and the accumulator left behind.
unfoldable pub consume : ℕ → SoundnessAccumulator → Result (Unit {0}) × SoundnessAccumulator
consume bits a =
    if ltb a.bits_remaining bits then (err (soundness_depleted bits a.bits_remaining), a) else (
      ok tt,
      record {
        bits_consumed = a.bits_consumed + bits;
        bits_remaining = a.bits_remaining - bits;
        round = a.round + 1;
      },
    )

-- `u32::try_from`
abbrev pub fits_u32 : ℕ → Bool
fits_u32 n = ltb n (2 ^ 32)

module _ {ℓ} {F : Type ℓ} {C S : Type 0} ⦃p : PrimeField32 F⦄ (c : Challenger F C S) where
  abbrev pub observe_u32 : S → ℕ → S
  observe_u32 s n = c.observe s (p.of_u32 n)

  -- The accumulator's numbers enter the transcript, once all three fit.
  unfoldable pub bind_accumulator :
      SoundnessAccumulator → S → Result (Unit {0}) × SoundnessAccumulator × S
  bind_accumulator a s =
      if not (fits_u32 a.round)
      then (err accumulator_encoding, a, s)
      else if not (fits_u32 a.bits_consumed)
      then (err accumulator_encoding, a, s)
      else if not (fits_u32 a.bits_remaining)
      then (err accumulator_encoding, a, s)
      else (
        ok tt,
        a,
        observe_u32 (observe_u32 (observe_u32 s a.round) a.bits_consumed) a.bits_remaining,
      )

  unfoldable pub bind_consumed :
      Result (Unit {0}) × SoundnessAccumulator → S → Result (Unit {0}) × SoundnessAccumulator × S
  unfolding bind_accumulator
  bind_consumed (ok u, a) s = bind_accumulator a s
  bind_consumed (err e, a) s = (err e, a, s)

  unfoldable pub consume_and_bind :
      ℕ → SoundnessAccumulator → S → Result (Unit {0}) × SoundnessAccumulator × S
  unfolding bind_consumed
  consume_and_bind bits a s = bind_consumed (consume bits a) s

module _ {ℓ} {F : Type ℓ} ⦃f : Field F⦄ where
  -- `for k in (0..n - 2).rev()`
  unfoldable pub quotient_loop : List F → F → ℕ → List F → Option (List F)
  quotient_loop coeffs z zero quotient = some quotient
  quotient_loop coeffs z (suc k) quotient = do
    c ← get_elem? coeffs (k + 1)
    next ← get_elem? quotient (k + 1)
    changed ← write quotient k (c ⊕ z ⊗ next)
    quotient_loop coeffs z k changed

  -- `if n >= 2 { quotient[n - 2] = coeffs[n - 1]; }`
  unfoldable pub lead : List F → ℕ → List F → Option (List F)
  lead coeffs n quotient =
      if leb 2 n then (do c ← get_elem? coeffs (n - 1); write quotient (n - 2) c) else some quotient

  -- `compute_single_quotient` behind the interpolation.
  unfoldable pub divide_linear : List F → F → Option (Result (List F))
  unfolding lead quotient_loop
  divide_linear coeffs z = if length coeffs == 0 then some (err interpolation_failure) else (do
    first ← lead coeffs (length coeffs) (replicate (length coeffs - 1) f.zero)
    count ← sub_usize (length coeffs) 2
    quotient ← quotient_loop coeffs z count first
    c ← get_elem? coeffs 0
    q ← get_elem? quotient 0
    some (
        if f.beq (c ⊕ z ⊗ q) (eval_poly_horner coeffs z)
        then ok quotient
        else err quotient_remainder_non_zero))
