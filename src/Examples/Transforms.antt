-- ===== src/Examples/Transforms.antt =====
-- The transform, the DEEP-ALI quotients and their way into FRI at concrete inputs, over the field of
-- thirteen elements.
use tscp_anchor.Prelude.{
  ℕ, zero, suc, ◌+◌, ◌*◌, ◌%◌, ◌^◌, ◌<◌, ◌≤◌, ◌≡◌, ◌≢◌, refl, Bool, true, false, ◌&&◌, some, List,
  [], ◌∷◌, length, get_elem?, get_or, ◌==◌, ==_refl, arith,
}
use tscp_anchor.Field.{exp, from_u64}
use tscp_anchor.Field.Thirteen.{
  Thirteen, d0, d1, d2, d3, d4, d5, d6, d7, d8, d9, d10, d11, d12, val, of_residue, same, same_iff,
  thirteen, thirteen_prime,
}
use tscp_anchor.Prelude.Bits.{is_power_of_two, trailing_zeros}
use tscp_anchor.Quotient.{eval_poly_horner}
use tscp_anchor.Oracle.{RowMajorMatrix}
use tscp_anchor.Merkle.{Mmcs}
use tscp_anchor.FriProtocol.{Challenger}
use tscp_anchor.Fft.{
  fft, fft_in_place, ifft, permute_loop, swap, reverse_bits, stage_loop, block_loop, butterfly_loop,
}
use tscp_anchor.Fft.Evaluate.{Evaluations, fft-Evaluations}
use tscp_anchor.Fft.Interpolate.{ifft_interpolates, ifft-fft}
use tscp_anchor.DeepAliFri.{DeepAliFriOutput, ok, deep_ali_fri_prove, deep_ali_fri_verify}
use tscp_anchor.DeepAliFri.Domain.{TwoAdic}
use tscp_anchor.DeepAliFri.Wiring.{Wired, deep_ali_fri_verify-deep_ali_fri_prove}
use tscp_anchor.DeepAli
use tscp_anchor.DeepQuotient.{DeepQuery, BabyBearDeepAli, compute_single_quotient}
use tscp_anchor.DeepQuotient.Single.{IsFull, IsQuotient, compute_single_quotient-IsQuotient}
use tscp_anchor.DeepQuotient.Returns.{DeepCombination, compute_deep_quotient-DeepCombination}

abbrev same_column : List Thirteen → List Thirteen → Bool
same_column [] [] = true
same_column (a ∷ as') (b ∷ bs) = same a b && same_column as' bs
same_column _ _ = false

same_refl : (a : Thirteen) → same a a ≡ true
same_refl a = (same_iff a a).1 refl

same_column_refl : (c : List Thirteen) → same_column c c ≡ true
same_column_refl [] = refl
same_column_refl (a ∷ c) = rw (same_refl a, same_column_refl c)

get_or-some :
    (xs : List Thirteen) (i : ℕ) (a : Thirteen) → get_elem? xs i ≡ some a → get_or xs i d0 ≡ a
get_or-some [] i a h = cc
get_or-some (x ∷ xs) zero a h = cc
get_or-some (x ∷ xs) (suc i) a h = get_or-some xs i a h

abbrev plain : Mmcs Thirteen (List Thirteen) (Unit {0})
plain = record {
  commit_vec = λ leaves. leaves;
  open_batch = λ i leaves. (get_or leaves i d0, tt);
  verify_batch = λ c height i v _. (length c == height) && same (get_or c i d0) v;
  commitment_eq = same_column;
  open_batch-value = get_or-some;
  verify-open_batch = λ leaves i h. rw (==_refl (length leaves), same_refl (get_or leaves i d0));
  commitment_eq_refl = same_column_refl;
}

abbrev pub counting : Challenger Thirteen (List Thirteen) ℕ
counting = record {
  observe = λ s a. 13 * s + val a;
  observe_commitment = λ s c. s + length c;
  sample = λ s. (of_residue (s % 13), s + 1);
}

pub half_power : exp (from_u64 31) (3 * 2 ^ 1) ≡ d12
unfolding exp from_u64
half_power = refl

abbrev pub two_adic : TwoAdic Thirteen
two_adic = record { cofactor = 3; depth = 1; order_lem = refl; half_order = half_power }

within_depth : 1 ≤ two_adic.depth
within_depth = omega arith

pub two_ne_zero : from_u64 {F = Thirteen} 2 ≢ d0
unfolding from_u64
two_ne_zero h = cc

abbrev coefficients : List Thirteen
coefficients = d1 ∷ d2 ∷ d3 ∷ d4 ∷ []

minus_one : exp d8 2 ≡ d12
unfolding exp
minus_one = refl

transformed : fft coefficients d8 ≡ some (d10 ∷ d8 ∷ d11 ∷ d1 ∷ [])
unfolding fft fft_in_place permute_loop swap reverse_bits stage_loop block_loop butterfly_loop exp
    is_power_of_two trailing_zeros
transformed = refl

fft-Evaluations_example :
    (a : List Thirteen) × (fft coefficients d8 ≡ some a) × Evaluations coefficients d8 a
fft-Evaluations_example = fft-Evaluations coefficients d8 1 refl minus_one

ifft_interpolates_example :
    (c : List Thirteen) × (ifft coefficients d8 ≡ some c)
    × (length c ≡ 4)
    × ((i : ℕ) → i < 4 → eval_poly_horner c (exp d8 i) ≡ get_or coefficients i d0)
ifft_interpolates_example = ifft_interpolates coefficients d8 1 refl minus_one two_ne_zero

ifft-fft_example :
    (evals : List Thirteen) × (fft coefficients d8 ≡ some evals)
    × (ifft evals d8 ≡ some coefficients)
ifft-fft_example = ifft-fft coefficients d8 1 refl minus_one two_ne_zero

abbrev quotient : List Thirteen
quotient = d5 ∷ d0 ∷ d7 ∷ []

deep_ali_fri_verify-deep_ali_fri_prove_example :
    (out : DeepAliFriOutput Thirteen (List Thirteen) (Unit {0})) × (after : ℕ) × (deep_ali_fri_prove
        plain counting quotient 3 2
      ≡ some (ok out, after))
    × (deep_ali_fri_verify plain counting out 3 2 ≡ some (ok tt))
    × Wired plain counting quotient 3 out
deep_ali_fri_verify-deep_ali_fri_prove_example =
    deep_ali_fri_verify-deep_ali_fri_prove plain counting two_adic quotient 3 2 (omega arith)
      (omega arith) two_ne_zero

-- Four rows of two columns.
abbrev pub trace : RowMajorMatrix Thirteen
trace = record { values = d1 ∷ d10 ∷ d2 ∷ d11 ∷ d3 ∷ d12 ∷ d4 ∷ d0 ∷ []; width = 2; height = 4 }

pub trace-IsFull : IsFull trace
trace-IsFull = record { cells = refl }

abbrev first_query : DeepQuery Thirteen
first_query = record { point = d6; trace_index = 0; column_index = 0 }

abbrev second_query : DeepQuery Thirteen
second_query = record { point = d9; trace_index = 1; column_index = 1 }

abbrev pub prover : BabyBearDeepAli
prover = record { max_degree = 4; num_columns = 2; owsl_permits = true }

compute_single_quotient-IsQuotient_example :
    (q : List Thirteen) × (compute_single_quotient trace second_query ≡ some (DeepAli.ok q))
    × IsQuotient trace second_query q
compute_single_quotient-IsQuotient_example =
    compute_single_quotient-IsQuotient two_adic trace second_query 1 within_depth two_ne_zero refl
      trace-IsFull (omega arith)

compute_deep_quotient-DeepCombination_example :
    DeepCombination two_adic trace 1 within_depth two_ne_zero refl trace-IsFull counting prover
      (first_query ∷ second_query ∷ [])
      7
compute_deep_quotient-DeepCombination_example =
    compute_deep_quotient-DeepCombination two_adic trace 1 within_depth two_ne_zero refl
      trace-IsFull counting prover first_query (second_query ∷ []) 7 refl
      (omega arith, omega arith, (omega arith, omega arith, tt))
