-- ===== src/DeepAliFri.antt =====
-- crates/prover-server/src/deep_ali_fri.rs: the DEEP-ALI quotient enters the FRI prover.
pub mod Domain
pub mod Symmetry
pub mod Wiring
use tscp_anchor.Prelude.{
  ℕ, zero, suc, ◌+◌, ◌-◌, ◌*◌, ◌/◌, Bool, true, false, Option, none, some, List, [], ◌∷◌, ◌++◌,
  length, take, replicate, ltb, leb, ◌==◌, if◌then◌else◌, ◌>>=◌,
}
use tscp_anchor.Field.{Field, PrimeField32, exp, from_u64}
use tscp_anchor.Merkle.{Mmcs}
use tscp_anchor.FriProtocol.{Challenger}
use tscp_anchor.FriQuery.{FriProof, fri_prove, fri_verify}
use tscp_anchor.Fft.{fft}

pub data DeepAliFriError : Type 0 where
  quotient_absent fri_rejected : DeepAliFriError

pub data Result {ℓ} (A : Type ℓ) : Type ℓ where
  ok : A → Result A
  err : DeepAliFriError → Result A

pub record DeepAliFriOutput {ℓ} (F : Type ℓ) (C P : Type 0) : Type ℓ where
  pub proof : FriProof F C P
  pub domain : List F
  pub quotient_len : ℕ
  pub domain_size : ℕ

-- `usize::next_power_of_two`: doubling from 1; `n` rounds are enough.
unfoldable pub next_power_loop : ℕ → ℕ → ℕ → ℕ
next_power_loop zero power n = power
next_power_loop (suc fuel) power n = elim (leb n power) [
  | true ↦ power
  | false ↦ next_power_loop fuel (2 * power) n
]

unfoldable pub next_power_of_two : ℕ → ℕ
unfolding next_power_loop
next_power_of_two n = next_power_loop n 1 n

-- `max`
unfoldable pub max_usize : ℕ → ℕ → ℕ
max_usize a b = if ltb a b then b else a

-- `Vec::resize`
unfoldable pub resize {ℓ} : {A : Type ℓ} → ℕ → A → List A → List A
resize n a xs = take n xs ++ replicate (n - length xs) a

module _ {ℓ} {F : Type ℓ} ⦃f : Field F⦄ where
  -- `(0..n as u64).map(|i| omega.exp_u64(i))`, from `i` on.
  unfoldable pub powers_loop : F → ℕ → ℕ → List F
  powers_loop omega i zero = []
  powers_loop omega i (suc count) = exp omega i ∷ powers_loop omega (suc i) count

module _ {ℓ} {F : Type ℓ} ⦃f : Field F⦄ ⦃p : PrimeField32 F⦄ where
  -- The assertion on `n` stands in debug builds only; a division by zero panics.
  unfoldable pub primitive_root : ℕ → Option F
  primitive_root n = if n == 0 then none else some (exp (from_u64 31) ((p.order - 1) / n))

  unfoldable pub two_adic_domain : ℕ → Option (List F)
  two_adic_domain n = do omega ← primitive_root n; some (powers_loop omega 0 n)

  module _ {C P S : Type 0} (m : Mmcs F C P) (c : Challenger F C S) where
    -- The wiring of a quotient that is not empty.
    unfoldable pub prove_padded : List F → S → ℕ → ℕ → Option (Result (DeepAliFriOutput F C P) × S)
    prove_padded quotient_coeffs s num_queries n = do
      omega ← primitive_root n
      evals ← fft (resize n f.zero quotient_coeffs) omega
      domain ← two_adic_domain n
      proved ← fri_prove m c evals domain s num_queries
      some (
        ok (record {
          proof = proved.0;
          domain = domain;
          quotient_len = length quotient_coeffs;
          domain_size = n;
        }),
        proved.1,
      )

    unfoldable pub deep_ali_fri_prove :
        List F → S → ℕ → Option (Result (DeepAliFriOutput F C P) × S)
    unfolding prove_padded max_usize
    deep_ali_fri_prove quotient_coeffs s num_queries =
        if length quotient_coeffs == 0
        then some (err quotient_absent, s)
        else prove_padded quotient_coeffs s num_queries
            (max_usize (next_power_of_two (length quotient_coeffs)) 2)

    unfoldable pub deep_ali_fri_verify : DeepAliFriOutput F C P → S → ℕ → Option (Result (Unit {0}))
    deep_ali_fri_verify out s num_queries = do
      accepted ← fri_verify m c out.domain out.proof s num_queries
      some (if accepted then ok tt else err fri_rejected)
