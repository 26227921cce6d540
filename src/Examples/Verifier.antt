-- ===== src/Examples/Verifier.antt =====
-- The trace evaluator and the batch verifier at a concrete trace, over the field of thirteen elements.
use tscp_anchor.Prelude.{ℕ, ◌+◌, ◌%◌, ◌≤◌, ◌<◌, ◌≡◌, refl, ap, ap₂, some, [], ◌∷◌, arith}
use tscp_anchor.Field.Thirteen.{
  Thirteen, d0, d1, d5, d6, of_residue, val-of_residue, thirteen, thirteen_prime,
}
use tscp_anchor.Quotient.{eval_poly_horner}
use tscp_anchor.DeepAli.{
  SoundnessAccumulator, ok, consume, bind_accumulator, bind_consumed, consume_and_bind,
}
use tscp_anchor.DeepAliFri.{max_usize}
use tscp_anchor.DeepQuotient.{matrix_get, evaluations_loop}
use tscp_anchor.DeepVerify.{
  DeepResponse, AlgebraicLink, TraceEvaluator, factor_loop, add_basis, row_point, basis_step,
  basis_loop, lagrange_loop, interpolate_lagrange_naive, columns_loop, from_trace, evaluate_column,
  evaluate_shifted, local_evaluation, local_loop, fold_sum, constraint_value, scaled_constraint,
  evaluate_air_constraint, links_loop, gated, observe_responses, check_links, check_budgeted,
  verify_deep_batch,
}
use tscp_anchor.DeepVerify.Rows.{Adds, cell, evaluate_shifted-from_trace}
use tscp_anchor.DeepVerify.Batch.{Accepted, verify_deep_batch-Accepted}
use tscp_anchor.Examples.Transforms.{counting, trace, trace-IsFull, prover}

adds : Adds Thirteen
adds m k h =
    ap of_residue
      (ap₂ (λ a b. (a + b) % 13) (val-of_residue m (omega arith)) (val-of_residue k (omega arith)))

some_row : 0 < trace.height
some_row = omega arith

rows_fit : trace.height ≤ thirteen_prime.order
rows_fit = omega arith

evaluate_shifted-from_trace_example :
    (ev : TraceEvaluator Thirteen) × (from_trace trace ≡ some (ok ev))
    × ((r k col : ℕ)
        → r + k < trace.height
        → col < trace.width
        → evaluate_shifted ev col (row_point r) k ≡ some (ok (cell trace (r + k) col)))
evaluate_shifted-from_trace_example =
    evaluate_shifted-from_trace trace trace-IsFull some_row rows_fit adds

-- At row 0, the second row of both columns: 2 and 11.
abbrev link : AlgebraicLink Thirteen
link = record {
  constraint_index = 0;
  numerator = [];
  denominator = d1;
  deep_point = d0;
  involved_columns = 0 ∷ 1 ∷ [];
  shifts = 1 ∷ 1 ∷ [];
}

abbrev response : DeepResponse Thirteen
response = record { value = d5; query = record { point = d6; trace_index = 0; column_index = 0 } }

abbrev fresh : SoundnessAccumulator
fresh = record { bits_consumed = 0; bits_remaining = 128; round = 0 }

abbrev spent : SoundnessAccumulator
spent = record { bits_consumed = 128; bits_remaining = 0; round = 1 }

batch_accepted :
    verify_deep_batch counting prover trace (response ∷ []) (link ∷ []) fresh 0
    ≡ some (ok tt, spent, 4061)
unfolding verify_deep_batch check_budgeted check_links observe_responses gated links_loop
    evaluate_air_constraint scaled_constraint constraint_value fold_sum local_loop local_evaluation
    evaluate_shifted evaluate_column from_trace columns_loop interpolate_lagrange_naive
    lagrange_loop basis_loop basis_step row_point add_basis factor_loop evaluations_loop matrix_get
    max_usize consume bind_accumulator bind_consumed consume_and_bind eval_poly_horner
batch_accepted = refl

verify_deep_batch-Accepted_example :
    Accepted trace trace-IsFull some_row rows_fit adds counting prover
      (response ∷ [])
      (link ∷ [])
      fresh
verify_deep_batch-Accepted_example =
    verify_deep_batch-Accepted trace trace-IsFull some_row rows_fit adds counting prover
      (response ∷ []) (link ∷ []) fresh spent 0 4061 batch_accepted
