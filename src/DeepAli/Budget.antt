-- ===== src/DeepAli/Budget.antt =====
-- The soundness accumulator of crates/prover-server/src/deep_ali.rs over sequences of requests.
use tscp_anchor.Prelude.{
  ℕ, ◌+◌, ◌-◌, ◌^◌, ◌≤◌, ◌<◌, ◌≡◌, refl, false, inl, inr, List, [], ◌∷◌, ltb, lt→ltb, Bool-cases,
  arith,
}
use tscp_anchor.Field.{PrimeField32}
use tscp_anchor.FriProtocol.{Challenger}
use tscp_anchor.DeepAli.{
  SoundnessAccumulator, soundness_depleted, ok, err, new, consume, observe_u32, bind_accumulator,
  bind_consumed, consume_and_bind,
}

-- A sequence of requests, refused or granted, from an accumulator on.
abbrev pub spend : List ℕ → SoundnessAccumulator → SoundnessAccumulator
spend [] a = a
spend (bits ∷ requests) a = spend requests (consume bits a).1

-- An accumulator over a budget.
record IsWithin (lambda : ℕ) (a : SoundnessAccumulator) : Type 0 where
  conserved : a.bits_consumed + a.bits_remaining ≡ lambda

pub not_less : (a b : ℕ) → ltb a b ≡ false → b ≤ a
not_less a b h = ground arith

less_false : (a b : ℕ) → b ≤ a → ltb a b ≡ false
less_false a b h = ground arith

consume-IsWithin :
    (lambda bits : ℕ) (a : SoundnessAccumulator)
    → IsWithin lambda a
    → IsWithin lambda (consume bits a).1
unfolding consume
consume-IsWithin lambda bits a w = elim (Bool-cases (ltb a.bits_remaining bits)) [
  | inl more ↦ rw more w
  | inr enough ↦ rw enough (record { conserved = omega (arith, not_less _ _ enough, w.conserved) })
]

-- Whatever is requested from a fresh accumulator, what it has granted and what is left are the
-- budget.
pub spend-conserved :
    (lambda : ℕ) (requests : List ℕ)
    → ((spend requests (new lambda)).bits_consumed + (spend requests (new lambda)).bits_remaining
        ≡ lambda)
      × ((spend requests (new lambda)).bits_consumed ≤ lambda)
spend-conserved lambda requests =
    let w : IsWithin lambda (spend requests (new lambda)) =
      within requests (new lambda) (unfold new in record { conserved = omega arith }) in
    (w.conserved, omega (arith, w.conserved))
  where
    within :
        (requests : List ℕ) (a : SoundnessAccumulator)
        → IsWithin lambda a
        → IsWithin lambda (spend requests a)
    within [] a w = w
    within (bits ∷ requests) a w =
        within requests (consume bits a).1 (consume-IsWithin lambda bits a w)

module _ {ℓ} {F : Type ℓ} {C S : Type 0} ⦃p : PrimeField32 F⦄ (c : Challenger F C S) where
  -- With numbers within 32 bits, a request over the budget changes neither the accumulator nor the
  -- transcript, and any other is granted and the transcript observes the round, the bits consumed
  -- and the bits left.
  pub consume_and_bind-bound :
      (bits : ℕ) (a : SoundnessAccumulator) (s : S)
      → a.round + 1 < 2 ^ 32
      → a.bits_consumed + a.bits_remaining < 2 ^ 32
      → (a.bits_remaining < bits
          → consume_and_bind c bits a s ≡ (err (soundness_depleted bits a.bits_remaining), a, s))
        × (bits ≤ a.bits_remaining
            → consume_and_bind c bits a s ≡ (
              ok tt,
              record {
                bits_consumed = a.bits_consumed + bits;
                bits_remaining = a.bits_remaining - bits;
                round = a.round + 1;
              },
              observe_u32 c
                  (observe_u32 c (observe_u32 c s (a.round + 1)) (a.bits_consumed + bits))
                  (a.bits_remaining - bits),
            ))
  unfolding consume_and_bind bind_consumed bind_accumulator consume
  consume_and_bind-bound bits a s rounds budget = (
    λ more. rw (lt→ltb _ _ more) refl,
    λ enough.
        rw
          (
            less_false a.bits_remaining bits enough,
            lt→ltb _ _ rounds,
            lt→ltb (a.bits_consumed + bits) (2 ^ 32) (omega arith),
            lt→ltb (a.bits_remaining - bits) (2 ^ 32) (omega arith),
          )
          refl,
  )
