-- ===== src/Constraint/Lww.antt =====
-- The last-writer-wins rules of crates/oracle-layer/src/constraint/lww.rs and their composite.
use tscp_anchor.Prelude.{
  ◌≡◌, refl, sym, ap, ◌∙◌, some, List, [], ◌∷◌, ◌⊎◌, inl, inr, ◌↔◌, eq_of_some,
}
use tscp_anchor.Field.{Field, ◌⊕◌, ◌⊖◌, ◌⊗◌}
use tscp_anchor.Field.Laws.{sub_self, mul-zero, zero-mul, eq_of_sub, eq_zero_of_mul, Field-cases}
use tscp_anchor.Field.Ring.{ring, normal, x0, x1, x2, x3, x4, plus, minus, times, unit, nought}
use tscp_anchor.Constraint.{
  lww_constraints, lww_booleanity, lww_value, lww_timestamp, booleanity_at, value_at, timestamp_at,
  composite, sum_squares,
}

module _ {ℓ} {F : Type ℓ} ⦃f : Field F⦄ where
  -- v_curr, ts_curr, v_event, ts_event, v_next, ts_next, S
  abbrev pub row : F → F → F → F → F → F → F → List F
  row v t v' t' v'' t'' s = v ∷ t ∷ v' ∷ t' ∷ v'' ∷ t'' ∷ s ∷ []

  -- A row follows the rules: the selector is 0 or 1, and the next value and timestamp are the
  -- event's under 1, the current ones under 0.
  abbrev pub IsLww : F → F → F → F → F → F → F → Type ℓ
  IsLww v t v' t' v'' t'' s =
      (s ≡ f.one) × (v'' ≡ v') × (t'' ≡ t') ⊎ (s ≡ f.zero) × (v'' ≡ v) × (t'' ≡ t)

  boolean_of : (s : F) → s ⊗ (f.one ⊖ s) ≡ f.zero → (s ≡ f.one) ⊎ (s ≡ f.zero)
  boolean_of s h = elim (Field-cases s f.zero) [
    | inl z ↦ inr z
    | inr n ↦ inl (sym (eq_of_sub (eq_zero_of_mul n h)))
  ]

  -- The selected difference at a selector of 1 and of 0.
  select_one : (a b c : F) → f.one ⊗ (a ⊖ b) ⊕ (f.one ⊖ f.one) ⊗ (a ⊖ c) ≡ a ⊖ b
  unfolding normal
  select_one a b c =
      ring (a ∷ b ∷ c ∷ [])
        (plus (times unit (minus x0 x1)) (times (minus unit unit) (minus x0 x2))) (minus x0 x1) refl

  select_zero : (a b c : F) → f.zero ⊗ (a ⊖ b) ⊕ (f.one ⊖ f.zero) ⊗ (a ⊖ c) ≡ a ⊖ c
  unfolding normal
  select_zero a b c =
      ring (a ∷ b ∷ c ∷ [])
        (plus (times nought (minus x0 x1)) (times (minus unit nought) (minus x0 x2))) (minus x0 x2)
        refl

  selector :
      (v t v' t' v'' t'' s : F)
      → (s ≡ f.one) ⊎ (s ≡ f.zero)
      → s ⊗ (v'' ⊖ v') ⊕ (f.one ⊖ s) ⊗ (v'' ⊖ v) ≡ f.zero
      → s ⊗ (t'' ⊖ t') ⊕ (f.one ⊖ s) ⊗ (t'' ⊖ t) ≡ f.zero
      → IsLww v t v' t' v'' t'' s
  selector v t v' t' v'' t'' s (inl is_one) hv ht = inl (
    is_one,
    eq_of_sub (sym (select_one v'' v' v) ∙ rw is_one at hv),
    eq_of_sub (sym (select_one t'' t' t) ∙ rw is_one at ht),
  )
  selector v t v' t' v'' t'' s (inr is_zero) hv ht = inr (
    is_zero,
    eq_of_sub (sym (select_zero v'' v' v) ∙ rw is_zero at hv),
    eq_of_sub (sym (select_zero t'' t' t) ∙ rw is_zero at ht),
  )

  -- Each constraint is zero on a row that follows the rules.
  rules_hold :
      (v t v' t' v'' t'' s : F)
      → IsLww v t v' t' v'' t'' s
      → (s ⊗ (f.one ⊖ s) ≡ f.zero)
        × (s ⊗ (v'' ⊖ v') ⊕ (f.one ⊖ s) ⊗ (v'' ⊖ v) ≡ f.zero)
        × (s ⊗ (t'' ⊖ t') ⊕ (f.one ⊖ s) ⊗ (t'' ⊖ t) ≡ f.zero)
  rules_hold v t v' t' v'' t'' s (inl (is_one, hv, ht)) = (
    rw (is_one, sub_self f.one, mul-zero f.one),
    ap (λ x. x ⊗ (v'' ⊖ v') ⊕ (f.one ⊖ x) ⊗ (v'' ⊖ v)) is_one
        ∙ select_one v'' v' v
        ∙ ap (λ x. x ⊖ v') hv
        ∙ sub_self v',
    ap (λ x. x ⊗ (t'' ⊖ t') ⊕ (f.one ⊖ x) ⊗ (t'' ⊖ t)) is_one
        ∙ select_one t'' t' t
        ∙ ap (λ x. x ⊖ t') ht
        ∙ sub_self t',
  )
  rules_hold v t v' t' v'' t'' s (inr (is_zero, hv, ht)) = (
    rw (is_zero, zero-mul (f.one ⊖ f.zero)),
    ap (λ x. x ⊗ (v'' ⊖ v') ⊕ (f.one ⊖ x) ⊗ (v'' ⊖ v)) is_zero
        ∙ select_zero v'' v' v
        ∙ ap (λ x. x ⊖ v) hv
        ∙ sub_self v,
    ap (λ x. x ⊗ (t'' ⊖ t') ⊕ (f.one ⊖ x) ⊗ (t'' ⊖ t)) is_zero
        ∙ select_zero t'' t' t
        ∙ ap (λ x. x ⊖ t) ht
        ∙ sub_self t,
  )

  -- On a row of seven values the three last-writer-wins constraints are all zero exactly when the
  -- selector is 1 and the next value and timestamp are the event's, or it is 0 and they are the
  -- current ones.
  pub rules-IsLww :
      (v t v' t' v'' t'' s : F)
      → ((lww_booleanity.evaluate (row v t v' t' v'' t'' s) ≡ some f.zero)
          × (lww_value.evaluate (row v t v' t' v'' t'' s) ≡ some f.zero)
          × (lww_timestamp.evaluate (row v t v' t' v'' t'' s) ≡ some f.zero))
        ↔ IsLww v t v' t' v'' t'' s
  unfolding lww_booleanity lww_value lww_timestamp booleanity_at value_at timestamp_at
  rules-IsLww v t v' t' v'' t'' s = (
    λ h.
        selector v t v' t' v'' t'' s (boolean_of s (eq_of_some h.0)) (eq_of_some h.1)
          (eq_of_some h.2),
    λ h. let r = rules_hold v t v' t' v'' t'' s h in (ap some r.0, ap some r.1, ap some r.2),
  )

  sum_of_zeros :
      {a b c : F} → a ≡ f.zero → b ≡ f.zero → c ≡ f.zero → f.zero ⊕ a ⊗ a ⊕ b ⊗ b ⊕ c ⊗ c ≡ f.zero
  unfolding normal
  sum_of_zeros ha hb hc =
      rw (ha, hb, hc)
        (ring []
          (plus (plus (plus nought (times nought nought)) (times nought nought))
            (times nought nought))
          nought refl)

  -- The composite constraint is zero on every row that follows the last-writer-wins rules.
  pub lww_constraints-IsLww :
      (v t v' t' v'' t'' s : F)
      → IsLww v t v' t' v'' t'' s
      → lww_constraints.evaluate (row v t v' t' v'' t'' s) ≡ some f.zero
  unfolding lww_constraints composite sum_squares lww_booleanity lww_value lww_timestamp
      booleanity_at value_at timestamp_at
  lww_constraints-IsLww v t v' t' v'' t'' s h =
      let r = rules_hold v t v' t' v'' t'' s h in ap some (sum_of_zeros r.0 r.1 r.2)

  -- With a selector of 0, a next value one above the current one and a timestamp `i` above it, the
  -- sum of squares is `1 + i²`.
  cancelled :
      (v t v' t' i : F)
      → f.zero
          ⊕ (f.zero ⊗ (f.one ⊖ f.zero)) ⊗ (f.zero ⊗ (f.one ⊖ f.zero))
          ⊕ (f.zero ⊗ (v ⊕ f.one ⊖ v') ⊕ (f.one ⊖ f.zero) ⊗ (v ⊕ f.one ⊖ v))
            ⊗ (f.zero ⊗ (v ⊕ f.one ⊖ v') ⊕ (f.one ⊖ f.zero) ⊗ (v ⊕ f.one ⊖ v))
          ⊕ (f.zero ⊗ (t ⊕ i ⊖ t') ⊕ (f.one ⊖ f.zero) ⊗ (t ⊕ i ⊖ t))
            ⊗ (f.zero ⊗ (t ⊕ i ⊖ t') ⊕ (f.one ⊖ f.zero) ⊗ (t ⊕ i ⊖ t))
        ≡ i ⊗ i ⊕ f.one
  unfolding normal
  cancelled v t v' t' i =
      let bool = times nought (minus unit nought) in
      let value =
        plus (times nought (minus (plus x0 unit) x2))
          (times (minus unit nought) (minus (plus x0 unit) x0)) in
      let stamp =
        plus (times nought (minus (plus x1 x4) x3))
          (times (minus unit nought) (minus (plus x1 x4) x1)) in
      ring (v ∷ t ∷ v' ∷ t' ∷ i ∷ [])
        (plus (plus (plus nought (times bool bool)) (times value value)) (times stamp stamp))
        (plus (times x4 x4) unit) refl

  one_more : (x : F) → x ⊕ f.one ⊖ x ≡ f.one
  unfolding normal
  one_more x = ring (x ∷ []) (minus (plus x0 unit) x0) unit refl

  -- In a field with a square root i of -1, from every current and event value and timestamp, the
  -- composite constraint is zero on a row that breaks the value rule: the selector is 0 and the
  -- next value is the current one plus 1.
  pub composite_forged :
      (v t v' t' i : F)
      → i ⊗ i ⊕ f.one ≡ f.zero
      → (lww_constraints.evaluate (row v t v' t' (v ⊕ f.one) (t ⊕ i) f.zero) ≡ some f.zero)
        × (lww_value.evaluate (row v t v' t' (v ⊕ f.one) (t ⊕ i) f.zero) ≡ some f.one)
        × ¬ IsLww v t v' t' (v ⊕ f.one) (t ⊕ i) f.zero
  unfolding lww_constraints composite sum_squares lww_booleanity lww_value lww_timestamp
      booleanity_at value_at timestamp_at
  composite_forged v t v' t' i h = (
    ap some (cancelled v t v' t' i ∙ h),
    ap some (select_zero (v ⊕ f.one) v' v ∙ one_more v),
    broken,
  )
    where
      broken : ¬ IsLww v t v' t' (v ⊕ f.one) (t ⊕ i) f.zero
      broken (inl (z, hv, ht)) = f.one-ne-zero (sym z)
      broken (inr (z, hv, ht)) = f.one-ne-zero (sym (one_more v) ∙ ap (λ x. x ⊖ v) hv ∙ sub_self v)
