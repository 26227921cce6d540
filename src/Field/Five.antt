-- ===== src/Field/Five.antt =====
-- The field of five elements: a value of the parameter `Field` for the examples.
use tscp_anchor.Prelude.{
  ℕ, zero, suc, ◌+◌, ◌-◌, ◌*◌, ◌%◌, ◌^◌, ◌<◌, ◌≡◌, ◌≢◌, ◌↔◌, refl, Bool, true, ◌&&◌, Option, none,
  some, arith, ◌==◌,
}
use tscp_anchor.Field.{Field, PrimeField32}

pub data Five : Type 0 where
  e0 e1 e2 e3 e4 : Five

abbrev pub val : Five → ℕ
val e0 = 0
val e1 = 1
val e2 = 2
val e3 = 3
val e4 = 4

abbrev pub of_residue : ℕ → Five
of_residue zero = e0
of_residue (suc zero) = e1
of_residue (suc (suc zero)) = e2
of_residue (suc (suc (suc zero))) = e3
of_residue (suc (suc (suc (suc n)))) = e4

abbrev pub plus : Five → Five → Five
plus a b = of_residue ((val a + val b) % 5)

abbrev pub times : Five → Five → Five
times a b = of_residue ((val a * val b) % 5)

abbrev pub opposite : Five → Five
opposite a = of_residue ((5 - val a) % 5)

abbrev pub inverse? : Five → Option Five
inverse? e0 = none
inverse? e1 = some e1
inverse? e2 = some e3
inverse? e3 = some e2
inverse? e4 = some e4

abbrev pub same : Five → Five → Bool
same a b = val a == val b

pub same_iff : (a b : Five) → (same a b ≡ true) ↔ (a ≡ b)
same_iff a b = ground arith

all : (Five → Bool) → Bool
all p = p e0 && p e1 && p e2 && p e3 && p e4

all_sound : (p : Five → Bool) → all p ≡ true → (a : Five) → p a ≡ true
unfolding all
all_sound p h e0 = ground arith
all_sound p h e1 = ground arith
all_sound p h e2 = ground arith
all_sound p h e3 = ground arith
all_sound p h e4 = ground arith

-- A law in two or three variables holds when its table does.
table_two :
    (p q : Five → Five → Five)
    → all (λ a. all (λ b. same (p a b) (q a b))) ≡ true
    → (a b : Five) → p a b ≡ q a b
table_two p q h a b = (same_iff _ _).0 (all_sound _ (all_sound _ h a) b)

table_three :
    (p q : Five → Five → Five → Five)
    → all (λ a. all (λ b. all (λ c. same (p a b c) (q a b c)))) ≡ true
    → (a b c : Five) → p a b c ≡ q a b c
table_three p q h a b c = (same_iff _ _).0 (all_sound _ (all_sound _ (all_sound _ h a) b) c)

pub plus_assoc : (a b c : Five) → plus (plus a b) c ≡ plus a (plus b c)
unfolding all
plus_assoc = table_three (λ a b c. plus (plus a b) c) (λ a b c. plus a (plus b c)) refl

pub plus_comm : (a b : Five) → plus a b ≡ plus b a
unfolding all
plus_comm = table_two plus (λ a b. plus b a) refl

pub times_assoc : (a b c : Five) → times (times a b) c ≡ times a (times b c)
unfolding all
times_assoc = table_three (λ a b c. times (times a b) c) (λ a b c. times a (times b c)) refl

pub times_comm : (a b : Five) → times a b ≡ times b a
unfolding all
times_comm = table_two times (λ a b. times b a) refl

pub times-plus : (a b c : Five) → times a (plus b c) ≡ plus (times a b) (times a c)
unfolding all
times-plus = table_three (λ a b c. times a (plus b c)) (λ a b c. plus (times a b) (times a c)) refl

pub inverse?-some : (a : Five) → a ≢ e0 → (b : Five) × (inverse? a ≡ some b) × (times a b ≡ e1)
inverse?-some e0 h = absurd (h refl)
inverse?-some e1 h = (e1, refl, refl)
inverse?-some e2 h = (e3, refl, refl)
inverse?-some e3 h = (e2, refl, refl)
inverse?-some e4 h = (e4, refl, refl)

pub zero-plus : (a : Five) → plus e0 a ≡ a
unfolding all
zero-plus = table_two (λ _ a. plus e0 a) (λ _ a. a) refl e0

pub plus-opposite : (a : Five) → plus a (opposite a) ≡ e0
unfolding all
plus-opposite = table_two (λ _ a. plus a (opposite a)) (λ _ _. e0) refl e0

pub one-times : (a : Five) → times e1 a ≡ a
unfolding all
one-times = table_two (λ _ a. times e1 a) (λ _ a. a) refl e0

pub e1-ne-e0 : e1 ≢ e0
e1-ne-e0 h = cc

instance abbrev pub five : Field Five
five = record {
  zero = e0;
  one = e1;
  add = plus;
  sub = λ a b. plus a (opposite b);
  mul = times;
  neg = opposite;
  inverse = inverse?;
  beq = same;
  add_assoc = plus_assoc;
  add_comm = plus_comm;
  zero-add = zero-plus;
  add-neg = plus-opposite;
  sub_lem = λ a b. refl;
  mul_assoc = times_assoc;
  mul_comm = times_comm;
  one-mul = one-times;
  mul-add = times-plus;
  one-ne-zero = e1-ne-e0;
  inverse-zero = refl;
  inverse-some = inverse?-some;
  beq_iff = same_iff;
}

pub of_residue-val : (a : Five) → of_residue (val a % 5) ≡ a
of_residue-val a = ground arith

pub val-lt : (a : Five) → val a < 5
val-lt a = ground arith

pub val-of_residue : (n : ℕ) → n < 5 → val (of_residue (n % 5)) ≡ n
val-of_residue zero h = refl
val-of_residue (suc zero) h = refl
val-of_residue (suc (suc zero)) h = refl
val-of_residue (suc (suc (suc zero))) h = refl
val-of_residue (suc (suc (suc (suc zero)))) h = refl
val-of_residue (suc (suc (suc (suc (suc n))))) h = absurd (omega arith)

pub order_small : 5 < 2 ^ 32
order_small = omega arith

instance abbrev pub five_prime : PrimeField32 Five
five_prime = record {
  order = 5;
  of_u32 = λ n. of_residue (n % 5);
  as_canonical_u32 = val;
  canonical-lt = val-lt;
  of_u32-canonical = of_residue-val;
  canonical-of_u32 = val-of_residue;
  order-lt = order_small;
}
