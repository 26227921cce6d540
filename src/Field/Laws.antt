-- ===== src/Field/Laws.antt =====
-- Laws that follow from those of `Field`.
use tscp_anchor.Prelude.{◌≡◌, ◌≢◌, sym, ap, ◌∙◌, true, some, Bool-cases, inl, inr, ◌≡⟨◌⟩◌, ◌∎, ◌⊎◌}
use tscp_anchor.Field.{Field, ◌⊕◌, ◌⊖◌, ◌⊗◌}

module _ {ℓ} {F : Type ℓ} ⦃f : Field F⦄ where
  pub add-zero : (a : F) → a ⊕ f.zero ≡ a
  add-zero a = f.add_comm a f.zero ∙ f.zero-add a

  pub neg-add : (a : F) → f.neg a ⊕ a ≡ f.zero
  neg-add a = f.add_comm _ _ ∙ f.add-neg a

  pub mul-one : (a : F) → a ⊗ f.one ≡ a
  mul-one a = f.mul_comm a f.one ∙ f.one-mul a

  pub add-mul : (a b c : F) → (a ⊕ b) ⊗ c ≡ a ⊗ c ⊕ b ⊗ c
  add-mul a b c = rw (f.mul_comm (a ⊕ b) c, f.mul_comm a c, f.mul_comm b c) (f.mul-add c a b)

  pub add_left_cancel : {a b c : F} → a ⊕ b ≡ a ⊕ c → b ≡ c
  add_left_cancel {a} {b} {c} h =
      b
      ≡⟨ sym (undo b) ⟩ f.neg a ⊕ (a ⊕ b)
      ≡⟨ ap (f.add (f.neg a)) h ⟩ f.neg a ⊕ (a ⊕ c)
      ≡⟨ undo c ⟩ c ∎
    where
      undo : (x : F) → f.neg a ⊕ (a ⊕ x) ≡ x
      undo x = sym (f.add_assoc _ _ _) ∙ ap (λ y. y ⊕ x) (neg-add a) ∙ f.zero-add x

  pub mul-zero : (a : F) → a ⊗ f.zero ≡ f.zero
  mul-zero a =
      add_left_cancel {a = a ⊗ f.zero}
        (sym (f.mul-add a f.zero f.zero) ∙ ap (f.mul a) (f.zero-add f.zero) ∙ sym (add-zero _))

  pub zero-mul : (a : F) → f.zero ⊗ a ≡ f.zero
  zero-mul a = f.mul_comm _ _ ∙ mul-zero a

  -- The negation is the only additive inverse.
  pub neg_unique : {a b : F} → a ⊕ b ≡ f.zero → b ≡ f.neg a
  neg_unique {a} {b} h = add_left_cancel {a = a} (h ∙ sym (f.add-neg a))

  pub neg-zero : f.neg f.zero ≡ f.zero
  neg-zero = sym (neg_unique (f.zero-add f.zero))

  pub neg-neg : (a : F) → f.neg (f.neg a) ≡ a
  neg-neg a = sym (neg_unique (neg-add a))

  pub add_left_comm : (a b c : F) → a ⊕ (b ⊕ c) ≡ b ⊕ (a ⊕ c)
  add_left_comm a b c =
      sym (f.add_assoc a b c) ∙ ap (λ x. x ⊕ c) (f.add_comm a b) ∙ f.add_assoc b a c

  pub neg-add_distrib : (a b : F) → f.neg (a ⊕ b) ≡ f.neg a ⊕ f.neg b
  neg-add_distrib a b = sym (
      neg_unique (
        (a ⊕ b) ⊕ (f.neg a ⊕ f.neg b)
        ≡⟨ f.add_assoc a b _ ⟩ a ⊕ (b ⊕ (f.neg a ⊕ f.neg b))
        ≡⟨ ap (f.add a) (add_left_comm b _ _) ⟩ a ⊕ (f.neg a ⊕ (b ⊕ f.neg b))
        ≡⟨ ap (λ x. a ⊕ (f.neg a ⊕ x)) (f.add-neg b) ⟩ a ⊕ (f.neg a ⊕ f.zero)
        ≡⟨ ap (f.add a) (add-zero _) ⟩ a ⊕ f.neg a
        ≡⟨ f.add-neg a ⟩ f.zero ∎))

  pub neg-mul : (a b : F) → f.neg a ⊗ b ≡ f.neg (a ⊗ b)
  neg-mul a b =
      neg_unique (sym (add-mul a (f.neg a) b) ∙ ap (λ x. x ⊗ b) (f.add-neg a) ∙ zero-mul b)

  pub mul-neg : (a b : F) → a ⊗ f.neg b ≡ f.neg (a ⊗ b)
  mul-neg a b = f.mul_comm _ _ ∙ neg-mul b a ∙ ap f.neg (f.mul_comm b a)

  -- A returned inverse is one, on either branch of the partial function.
  pub inverse-mul : {a b : F} → f.inverse a ≡ some b → a ⊗ b ≡ f.one
  inverse-mul {a} {b} h = elim (Bool-cases (f.beq a f.zero)) [
    | inl z ↦ cc (h, f.inverse-zero, (f.beq_iff a f.zero).0 z)
    | inr n ↦ from (f.inverse-some a λ e. cc (n, (f.beq_iff a f.zero).1 e))
  ]
    where
      from : (c : F) × (f.inverse a ≡ some c) × (a ⊗ c ≡ f.one) → a ⊗ b ≡ f.one
      from (c, e, m) = cc (h, e, m)

  -- A difference vanishes only between equals.
  pub eq_of_sub : {a b : F} → a ⊖ b ≡ f.zero → a ≡ b
  eq_of_sub {a} {b} h =
      sym (neg-neg a) ∙ ap f.neg (sym (neg_unique {a = a} (sym (f.sub_lem a b) ∙ h))) ∙ neg-neg b

  pub sub_self : (a : F) → a ⊖ a ≡ f.zero
  sub_self a = f.sub_lem a a ∙ f.add-neg a

  pub Field-cases : (a b : F) → (a ≡ b) ⊎ (a ≢ b)
  Field-cases a b = elim (Bool-cases (f.beq a b)) [
    | inl e ↦ inl ((f.beq_iff a b).0 e)
    | inr n ↦ inr (λ e. cc (n, (f.beq_iff a b).1 e))
  ]

  pub beq_refl : {a b : F} → a ≡ b → f.beq a b ≡ true
  beq_refl {a} {b} e = (f.beq_iff a b).1 e

  -- There are no zero divisors.
  pub eq_zero_of_mul : {a b : F} → a ≢ f.zero → a ⊗ b ≡ f.zero → b ≡ f.zero
  eq_zero_of_mul {a} {b} n h =
      let (c, e, m) = f.inverse-some a n in
      b
      ≡⟨ sym (f.one-mul b) ⟩ f.one ⊗ b
      ≡⟨ ap (λ x. x ⊗ b) (sym m ∙ f.mul_comm a c) ⟩ c ⊗ a ⊗ b
      ≡⟨ f.mul_assoc c a b ⟩ c ⊗ (a ⊗ b)
      ≡⟨ ap (f.mul c) h ∙ mul-zero c ⟩ f.zero ∎
