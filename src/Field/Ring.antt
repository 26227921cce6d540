-- ===== src/Field/Ring.antt =====
-- Equations between polynomials of a field, decided by a normal form: an expression becomes a
-- sorted list of signed monomials in which opposite terms cancel.
use Prim.Native.Nat.{compare, Ordering}
use tscp_anchor.Prelude.{
  ℕ, ◌≡◌, refl, sym, ap, ap₂, ◌∙◌, Bool, true, false, not, List, [], ◌∷◌, get_or, arith, ◌⊎◌, inl,
  inr, Bool-cases,
}
use tscp_anchor.Field.{Field, ◌⊕◌, ◌⊖◌, ◌⊗◌}
use tscp_anchor.Field.Laws.{
  add-zero, neg-add, mul-one, add-mul, mul-zero, zero-mul, neg-zero, neg-neg, neg-add_distrib,
  neg-mul, mul-neg, add_left_comm,
}

pub data Expr : Type 0 where
  var : ℕ → Expr
  nought unit : Expr
  plus minus times : Expr → Expr → Expr
  opp : Expr → Expr

abbrev pub Monomial : Type 0
Monomial = List ℕ

abbrev pub Normal : Type 0
Normal = List (Bool × Monomial)

-- The three ways that a comparison can go.
by_order {ℓ} : {A : Type ℓ} → Ordering → A → A → A → A
by_order Ordering.lt x y z = x
by_order Ordering.eq x y z = y
by_order Ordering.gt x y z = z

choose {ℓ} : {A : Type ℓ} → Bool → A → A → A
choose true x y = x
choose false x y = y

insert_var : ℕ → Monomial → Monomial
insert_var v [] = v ∷ []
insert_var v (w ∷ m) = by_order (compare v w) (v ∷ w ∷ m) (v ∷ w ∷ m) (w ∷ insert_var v m)

mul_monomial : Monomial → Monomial → Monomial
mul_monomial [] n = n
mul_monomial (v ∷ m) n = insert_var v (mul_monomial m n)

order : Monomial → Monomial → Ordering
order [] [] = Ordering.eq
order [] (w ∷ n) = Ordering.lt
order (v ∷ m) [] = Ordering.gt
order (v ∷ m) (w ∷ n) = by_order (compare v w) Ordering.lt (order m n) Ordering.gt

same_sign : Bool → Bool → Bool
same_sign true t = t
same_sign false t = not t

add_term : Bool → Monomial → Normal → Normal
add_term s m [] = (s, m) ∷ []
add_term s m ((t, n) ∷ p) =
    by_order (order m n) ((s, m) ∷ (t, n) ∷ p) (choose (same_sign s t) ((s, m) ∷ (t, n) ∷ p) p)
      ((t, n) ∷ add_term s m p)

add_normal : Normal → Normal → Normal
add_normal [] q = q
add_normal ((s, m) ∷ p) q = add_term s m (add_normal p q)

neg_normal : Normal → Normal
neg_normal [] = []
neg_normal ((s, m) ∷ p) = (not s, m) ∷ neg_normal p

scale : Bool → Monomial → Normal → Normal
scale s m [] = []
scale s m ((t, n) ∷ p) = add_term (same_sign s t) (mul_monomial m n) (scale s m p)

mul_normal : Normal → Normal → Normal
mul_normal [] q = []
mul_normal ((s, m) ∷ p) q = add_normal (scale s m q) (mul_normal p q)

unfoldable pub normal : Expr → Normal
unfolding by_order choose insert_var mul_monomial order same_sign add_term add_normal neg_normal
    scale mul_normal
normal (var v) = (true, v ∷ []) ∷ []
normal nought = []
normal unit = (true, []) ∷ []
normal (plus a b) = add_normal (normal a) (normal b)
normal (minus a b) = add_normal (normal a) (neg_normal (normal b))
normal (times a b) = mul_normal (normal a) (normal b)
normal (opp a) = neg_normal (normal a)

Ordering-cases : (o : Ordering) → (o ≡ Ordering.lt) ⊎ ((o ≡ Ordering.eq) ⊎ (o ≡ Ordering.gt))
Ordering-cases Ordering.lt = inl refl
Ordering-cases Ordering.eq = inr (inl refl)
Ordering-cases Ordering.gt = inr (inr refl)

order_eq : (m n : Monomial) → order m n ≡ Ordering.eq → m ≡ n
unfolding order by_order
order_eq [] [] h = refl
order_eq [] (w ∷ n) h = cc
order_eq (v ∷ m) [] h = cc
order_eq (v ∷ m) (w ∷ n) h = ground (arith, order_eq m n)

module _ {ℓ} {F : Type ℓ} ⦃f : Field F⦄ (env : List F) where
  abbrev pub eval : Expr → F
  eval (var v) = get_or env v f.zero
  eval nought = f.zero
  eval unit = f.one
  eval (plus a b) = eval a ⊕ eval b
  eval (minus a b) = eval a ⊖ eval b
  eval (times a b) = eval a ⊗ eval b
  eval (opp a) = f.neg (eval a)

  monomial : Monomial → F
  monomial [] = f.one
  monomial (v ∷ m) = get_or env v f.zero ⊗ monomial m

  signed : Bool → F → F
  signed true a = a
  signed false a = f.neg a

  value : Normal → F
  value [] = f.zero
  value ((s, m) ∷ p) = signed s (monomial m) ⊕ value p

  mul_left_comm : (a b c : F) → a ⊗ (b ⊗ c) ≡ b ⊗ (a ⊗ c)
  mul_left_comm a b c =
      sym (f.mul_assoc a b c) ∙ ap (λ x. x ⊗ c) (f.mul_comm a b) ∙ f.mul_assoc b a c

  monomial-insert_var :
      (v : ℕ) (m : Monomial) → monomial (insert_var v m) ≡ get_or env v f.zero ⊗ monomial m
  unfolding monomial insert_var by_order
  monomial-insert_var v [] = refl
  monomial-insert_var v (w ∷ m) = elim (Ordering-cases (compare v w)) [
    | inl e ↦ rw (e, by_order)
    | inr (inl e) ↦ rw (e, by_order)
    | inr (inr e) ↦ rw (e, by_order) (ap (f.mul _) (monomial-insert_var v m) ∙ mul_left_comm _ _ _)
  ]

  monomial-mul : (m n : Monomial) → monomial (mul_monomial m n) ≡ monomial m ⊗ monomial n
  unfolding monomial mul_monomial
  monomial-mul [] n = sym (f.one-mul _)
  monomial-mul (v ∷ m) n =
      monomial-insert_var v (mul_monomial m n)
      ∙ ap (f.mul _) (monomial-mul m n)
      ∙ sym (f.mul_assoc _ _ _)

  cancel_sign : (s t : Bool) (a b : F) → same_sign s t ≡ false → signed s a ⊕ (signed t a ⊕ b) ≡ b
  unfolding same_sign signed
  cancel_sign true true a b h = cc
  cancel_sign true false a b h =
      sym (f.add_assoc _ _ _) ∙ ap (λ x. x ⊕ b) (f.add-neg a) ∙ f.zero-add b
  cancel_sign false true a b h =
      sym (f.add_assoc _ _ _) ∙ ap (λ x. x ⊕ b) (neg-add a) ∙ f.zero-add b
  cancel_sign false false a b h = cc

  value-add_term :
      (s : Bool) (m : Monomial) (p : Normal)
      → value (add_term s m p) ≡ signed s (monomial m) ⊕ value p
  unfolding value add_term by_order choose
  value-add_term s m [] = refl
  value-add_term s m ((t, n) ∷ p) = elim (Ordering-cases (order m n)) [
    | inl e ↦ rw (e, by_order)
    | inr (inl e) ↦ elim (Bool-cases (same_sign s t)) [
      | inl h ↦ rw (e, by_order, h, choose)
      | inr h ↦ rw (e, by_order, h, choose) (rw (order_eq m n e) (sym (cancel_sign s t _ _ h)))
    ]
    | inr (inr e) ↦ rw (e, by_order) (ap (f.add _) (value-add_term s m p) ∙ add_left_comm _ _ _)
  ]

  value-add : (p q : Normal) → value (add_normal p q) ≡ value p ⊕ value q
  unfolding value add_normal
  value-add [] q = sym (f.zero-add _)
  value-add ((s, m) ∷ p) q =
      value-add_term s m (add_normal p q) ∙ ap (f.add _) (value-add p q) ∙ sym (f.add_assoc _ _ _)

  signed-not : (s : Bool) (a : F) → signed (not s) a ≡ f.neg (signed s a)
  unfolding signed
  signed-not true a = refl
  signed-not false a = sym (neg-neg a)

  value-neg : (p : Normal) → value (neg_normal p) ≡ f.neg (value p)
  unfolding value neg_normal
  value-neg [] = sym neg-zero
  value-neg ((s, m) ∷ p) =
      ap₂ f.add (signed-not s (monomial m)) (value-neg p) ∙ sym (neg-add_distrib _ _)

  signed-mul : (s t : Bool) (a b : F) → signed (same_sign s t) (a ⊗ b) ≡ signed s a ⊗ signed t b
  unfolding signed same_sign
  signed-mul true true a b = refl
  signed-mul true false a b = sym (mul-neg a b)
  signed-mul false true a b = sym (neg-mul a b)
  signed-mul false false a b = sym (neg-mul a _ ∙ ap f.neg (mul-neg a b) ∙ neg-neg _)

  value-scale :
      (s : Bool) (m : Monomial) (p : Normal) → value (scale s m p) ≡ signed s (monomial m) ⊗ value p
  unfolding value scale
  value-scale s m [] = sym (mul-zero _)
  value-scale s m ((t, n) ∷ p) =
      value-add_term (same_sign s t) (mul_monomial m n) (scale s m p)
      ∙ ap₂ f.add (ap (signed (same_sign s t)) (monomial-mul m n) ∙ signed-mul s t _ _)
          (value-scale s m p)
      ∙ sym (f.mul-add _ _ _)

  value-mul : (p q : Normal) → value (mul_normal p q) ≡ value p ⊗ value q
  unfolding value mul_normal
  value-mul [] q = sym (zero-mul _)
  value-mul ((s, m) ∷ p) q =
      value-add (scale s m q) (mul_normal p q)
      ∙ ap₂ f.add (value-scale s m q) (value-mul p q)
      ∙ sym (add-mul _ _ _)

  value-normal : (e : Expr) → value (normal e) ≡ eval e
  unfolding normal value monomial signed
  value-normal (var v) = add-zero _ ∙ mul-one _
  value-normal nought = refl
  value-normal unit = add-zero _
  value-normal (plus a b) =
      value-add (normal a) (normal b) ∙ ap₂ f.add (value-normal a) (value-normal b)
  value-normal (minus a b) =
      value-add (normal a) (neg_normal (normal b))
      ∙ ap₂ f.add (value-normal a) (value-neg (normal b) ∙ ap f.neg (value-normal b))
      ∙ sym (f.sub_lem _ _)
  value-normal (times a b) =
      value-mul (normal a) (normal b) ∙ ap₂ f.mul (value-normal a) (value-normal b)
  value-normal (opp a) = value-neg (normal a) ∙ ap f.neg (value-normal a)

  -- Two expressions of one normal form have one value: `ring env a b refl`.
  pub ring : (a b : Expr) → normal a ≡ normal b → eval a ≡ eval b
  ring a b h = sym (value-normal a) ∙ ap value h ∙ value-normal b

abbrev pub x0 : Expr
x0 = var 0

abbrev pub x1 : Expr
x1 = var 1

abbrev pub x2 : Expr
x2 = var 2

abbrev pub x3 : Expr
x3 = var 3

abbrev pub x4 : Expr
x4 = var 4

abbrev pub x5 : Expr
x5 = var 5

abbrev pub x6 : Expr
x6 = var 6

abbrev pub x7 : Expr
x7 = var 7
