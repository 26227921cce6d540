-- ===== src/Constraint.antt =====
-- crates/oracle-layer/src/constraint: constraints over a trace row, their composition by a sum of
-- squares, and the last-writer-wins rules; constraint_oracle.rs.
pub mod Lww
use tscp_anchor.Prelude.{
  ℕ, zero, suc, Bool, Option, none, some, List, [], ◌∷◌, length, get_elem?, check, ◌>>=◌, ◌>>◌, not,
  ◌==◌,
}
use tscp_anchor.Prelude.Bits.{is_power_of_two, trailing_zeros}
use tscp_anchor.Field.{Field, ◌⊕◌, ◌⊖◌, ◌⊗◌}
use tscp_anchor.Oracle.{MleOracle, evaluate_mle}

-- The trait `Constraint`; reading past the row panics.
pub record Constraint {ℓ} (F : Type ℓ) : Type ℓ where
  pub arity : ℕ
  pub evaluate : List F → Option F

module _ {ℓ} {F : Type ℓ} ⦃f : Field F⦄ where
  -- The three `evaluate`s.
  unfoldable pub booleanity_at : List F → Option F
  booleanity_at vars = do s ← get_elem? vars 6; some (s ⊗ (f.one ⊖ s))

  unfoldable pub value_at : List F → Option F
  value_at vars = do
    v_curr ← get_elem? vars 0
    v_event ← get_elem? vars 2
    v_next ← get_elem? vars 4
    s ← get_elem? vars 6
    some (s ⊗ (v_next ⊖ v_event) ⊕ (f.one ⊖ s) ⊗ (v_next ⊖ v_curr))

  unfoldable pub timestamp_at : List F → Option F
  timestamp_at vars = do
    ts_curr ← get_elem? vars 1
    ts_event ← get_elem? vars 3
    ts_next ← get_elem? vars 5
    s ← get_elem? vars 6
    some (s ⊗ (ts_next ⊖ ts_event) ⊕ (f.one ⊖ s) ⊗ (ts_next ⊖ ts_curr))

  unfoldable pub lww_booleanity : Constraint F
  lww_booleanity = record { arity = 7; evaluate = booleanity_at }

  unfoldable pub lww_value : Constraint F
  lww_value = record { arity = 7; evaluate = value_at }

  unfoldable pub lww_timestamp : Constraint F
  lww_timestamp = record { arity = 7; evaluate = timestamp_at }

  -- `for c in &self.constraints`
  unfoldable pub sum_squares : List (Constraint F) → F → List F → Option F
  sum_squares [] sum vars = some sum
  sum_squares (c ∷ cs) sum vars = do val ← c.evaluate vars; sum_squares cs (sum ⊕ val ⊗ val) vars

  first_arity : List (Constraint F) → ℕ
  first_arity [] = 0
  first_arity (c ∷ cs) = c.arity

  unfoldable pub composite : List (Constraint F) → Constraint F
  unfolding sum_squares first_arity
  composite cs = record { arity = first_arity cs; evaluate = sum_squares cs f.zero }

  unfoldable pub lww_constraints : Constraint F
  unfolding composite
  lww_constraints = composite (lww_booleanity ∷ lww_value ∷ lww_timestamp ∷ [])

  -- `trace.iter().map(|row| constraint.evaluate(row)).collect()`
  unfoldable pub constraint_evals : Constraint F → List (List F) → Option (List F)
  constraint_evals c [] = some []
  constraint_evals c (row ∷ rows) = do
    v ← c.evaluate row
    vs ← constraint_evals c rows
    some (v ∷ vs)

  -- `ConstraintOracle::new`, as the oracle that it implements.
  unfoldable pub constraint_oracle : List (List F) → Constraint F → Option (MleOracle F)
  constraint_oracle trace c = do
    check (is_power_of_two (length trace))
    check (not (length trace == 0))
    vs ← constraint_evals c trace
    some (record { n_vars = trailing_zeros (length trace); eval = evaluate_mle vs })
