-- ===== src/DeepAli/Ledger.antt =====
-- The soundness budget of crates/prover-server/src/deep_ali.rs over sequences of requests, with the
-- transcript.
use tscp_anchor.Prelude.{
  ℕ, ◌+◌, ◌-◌, ◌^◌, ◌≤◌, ◌<◌, ◌≡◌, refl, sym, ap, ◌∙◌, true, false, inl, inr, List, [], ◌∷◌, length,
  ltb, ltb→lt, Bool-cases, if◌then◌else◌, arith,
}
use tscp_anchor.Field.{PrimeField32}
use tscp_anchor.FriProtocol.{Challenger}
use tscp_anchor.DeepAli.{SoundnessAccumulator, new, observe_u32, consume_and_bind}
use tscp_anchor.DeepAli.Budget.{not_less, consume_and_bind-bound}

-- The requests that a budget covers, each from what those before it left.
abbrev pub granted : ℕ → List ℕ → List ℕ
granted left [] = []
granted left (bits ∷ requests) =
    let skipped = granted left requests in
    let taken = bits ∷ granted (left - bits) requests in if ltb left bits then skipped else taken

abbrev pub total : List ℕ → ℕ
total [] = 0
total (n ∷ ns) = n + total ns

granted-refused :
    (left bits : ℕ) (requests : List ℕ)
    → ltb left bits ≡ true
    → granted left (bits ∷ requests) ≡ granted left requests
granted-refused left bits requests more = rw (more, granted) refl

granted-taken :
    (left bits : ℕ) (requests : List ℕ)
    → ltb left bits ≡ false
    → granted left (bits ∷ requests) ≡ bits ∷ granted (left - bits) requests
granted-taken left bits requests enough = rw (enough, granted) refl

granted-bound : (left : ℕ) (requests : List ℕ) → total (granted left requests) ≤ left
granted-bound left [] = omega arith
granted-bound left (bits ∷ requests) = elim (Bool-cases (ltb left bits)) [
  | inl more ↦
      omega (arith, ap total (granted-refused left bits requests more), granted-bound left requests)
  | inr enough ↦ omega (
    arith,
    ap total (granted-taken left bits requests enough),
    granted-bound (left - bits) requests,
    not_less _ _ enough,
  )
]

module _ {ℓ} {F : Type ℓ} {C S : Type 0} ⦃p : PrimeField32 F⦄ (c : Challenger F C S) where
  -- Requests one after the other, granted or refused.
  abbrev pub requested : List ℕ → SoundnessAccumulator → S → SoundnessAccumulator × S
  requested [] a s = (a, s)
  requested (bits ∷ requests) a s =
      let r = consume_and_bind c bits a s in requested requests r.1 r.2

  -- A transcript that reads each grant with its number, and what is spent and left then.
  abbrev pub recorded : List ℕ → ℕ → ℕ → ℕ → S → S
  recorded [] round spent left s = s
  recorded (bits ∷ grants) round spent left s =
      recorded grants (round + 1) (spent + bits) (left - bits)
        (observe_u32 c (observe_u32 c (observe_u32 c s (round + 1)) (spent + bits)) (left - bits))

  -- What grants leave of an accumulator and a transcript.
  abbrev pub after : List ℕ → ℕ → ℕ → ℕ → S → SoundnessAccumulator × S
  after grants round spent left s = (
    record {
      bits_consumed = spent + total grants;
      bits_remaining = left - total grants;
      round = round + length grants;
    },
    recorded grants round spent left s,
  )

  same_account :
      (x x' y y' z z' : ℕ) (s : S)
      → x ≡ x'
      → y ≡ y'
      → z ≡ z'
      → ◌≡◌ {A = SoundnessAccumulator × S}
          (record { bits_consumed = x; bits_remaining = y; round = z }, s)
          (record { bits_consumed = x'; bits_remaining = y'; round = z' }, s)
  same_account x x' y y' z z' s e1 e2 e3 = rw (e1, e2, e3) refl

  after-cons :
      (bits : ℕ) (grants : List ℕ) (round spent left : ℕ) (s : S)
      → after grants
          (round + 1)
          (spent + bits)
          (left - bits)
          (observe_u32 c (observe_u32 c (observe_u32 c s (round + 1)) (spent + bits)) (left - bits))
        ≡ after (bits ∷ grants) round spent left s
  after-cons bits grants round spent left s =
      same_account (spent + bits + total grants) _ (left - bits - total grants) _
        (round + 1 + length grants) _ (recorded (bits ∷ grants) round spent left s) (omega arith)
        (omega arith) (omega arith)

  requested-granted :
      (requests : List ℕ) (round spent left : ℕ) (s : S)
      → round + length requests < 2 ^ 32
      → spent + left < 2 ^ 32
      → requested requests
          (record { bits_consumed = spent; bits_remaining = left; round = round })
          s
        ≡ after (granted left requests) round spent left s
  requested-granted [] round spent left s rounds budget =
      same_account spent _ left _ round _ s (omega arith) (omega arith) (omega arith)
  requested-granted (bits ∷ requests) round spent left s rounds budget =
      let (refuses, grants) =
        consume_and_bind-bound c bits
          (record { bits_consumed = spent; bits_remaining = left; round = round }) s (omega arith)
          budget in
      elim (Bool-cases (ltb left bits)) [
        | inl more ↦
            ap (λ r. requested requests r.1 r.2) (refuses (ltb→lt _ _ more))
            ∙ requested-granted requests round spent left s (omega arith) budget
            ∙ ap (λ g. after g round spent left s) (sym (granted-refused left bits requests more))
        | inr enough ↦
            ap (λ r. requested requests r.1 r.2) (grants (not_less _ _ enough))
            ∙ requested-granted requests (round + 1) (spent + bits) (left - bits) _ (omega arith)
                (omega (arith, budget, not_less _ _ enough))
            ∙ after-cons bits (granted (left - bits) requests) round spent left s
            ∙ ap (λ g. after g round spent left s) (sym (granted-taken left bits requests enough))
      ]

  -- On a fresh accumulator with a budget within 32 bits, and fewer than 2^32 requests, those are
  -- granted that the budget covers, each from what those before it left: the accumulator counts
  -- them, holds their sum, at most the budget, and the rest of it, and the transcript reads after
  -- each grant its number, the bits consumed and the bits left, and nothing of a refusal.
  pub requested-after :
      (lambda : ℕ) (requests : List ℕ) (s : S)
      → lambda < 2 ^ 32
      → length requests < 2 ^ 32
      → (requested requests (new lambda) s ≡ after (granted lambda requests) 0 0 lambda s)
        × (total (granted lambda requests) ≤ lambda)
  unfolding new
  requested-after lambda requests s budget rounds = (
    requested-granted requests 0 0 lambda s (omega (arith, rounds)) (omega (arith, budget)),
    granted-bound lambda requests,
  )
