-- ===== src/Field/Thirteen.antt =====
-- The field of thirteen elements: a value of the parameters `Field` and `PrimeField32` in which 31, as
-- in BabyBear, is no square.
use tscp_anchor.Prelude.{
  ℕ, zero, suc, ◌+◌, ◌-◌, ◌*◌, ◌%◌, ◌^◌, ◌<◌, ◌≡◌, ◌≢◌, ◌↔◌, refl, Bool, true, ◌&&◌, Option, none,
  some, arith, ◌==◌,
}
use tscp_anchor.Field.{Field, PrimeField32}

pub data Thirteen : Type 0 where
  d0 d1 d2 d3 d4 d5 d6 d7 d8 d9 d10 d11 d12 : Thirteen

abbrev pub val : Thirteen → ℕ
val d0 = 0
val d1 = 1
val d2 = 2
val d3 = 3
val d4 = 4
val d5 = 5
val d6 = 6
val d7 = 7
val d8 = 8
val d9 = 9
val d10 = 10
val d11 = 11
val d12 = 12

abbrev pub of_residue : ℕ → Thirteen
of_residue zero = d0
of_residue (suc zero) = d1
of_residue (suc (suc zero)) = d2
of_residue (suc (suc (suc zero))) = d3
of_residue (suc (suc (suc (suc zero)))) = d4
of_residue (suc (suc (suc (suc (suc zero))))) = d5
of_residue (suc (suc (suc (suc (suc (suc zero)))))) = d6
of_residue (suc (suc (suc (suc (suc (suc (suc zero))))))) = d7
of_residue (suc (suc (suc (suc (suc (suc (suc (suc zero)))))))) = d8
of_residue (suc (suc (suc (suc (suc (suc (suc (suc (suc zero))))))))) = d9
of_residue (suc (suc (suc (suc (suc (suc (suc (suc (suc (suc zero)))))))))) = d10
of_residue (suc (suc (suc (suc (suc (suc (suc (suc (suc (suc (suc zero))))))))))) = d11
of_residue (suc (suc (suc (suc (suc (suc (suc (suc (suc (suc (suc (suc n)))))))))))) = d12

abbrev pub plus : Thirteen → Thirteen → Thirteen
plus a b = of_residue ((val a + val b) % 13)

abbrev pub times : Thirteen → Thirteen → Thirteen
times a b = of_residue ((val a * val b) % 13)

abbrev pub opposite : Thirteen → Thirteen
opposite a = of_residue ((13 - val a) % 13)

abbrev pub inverse? : Thirteen → Option Thirteen
inverse? d0 = none
inverse? d1 = some d1
inverse? d2 = some d7
inverse? d3 = some d9
inverse? d4 = some d10
inverse? d5 = some d8
inverse? d6 = some d11
inverse? d7 = some d2
inverse? d8 = some d5
inverse? d9 = some d3
inverse? d10 = some d4
inverse? d11 = some d6
inverse? d12 = some d12

abbrev pub same : Thirteen → Thirteen → Bool
same a b = val a == val b

pub same_iff : (a b : Thirteen) → (same a b ≡ true) ↔ (a ≡ b)
same_iff a b = ground arith

all : (Thirteen → Bool) → Bool
all p =
    p d0
    && p d1
    && p d2
    && p d3
    && p d4
    && p d5
    && p d6
    && p d7
    && p d8
    && p d9
    && p d10
    && p d11
    && p d12

all_sound : (p : Thirteen → Bool) → all p ≡ true → (a : Thirteen) → p a ≡ true
unfolding all
all_sound p h d0 = ground arith
all_sound p h d1 = ground arith
all_sound p h d2 = ground arith
all_sound p h d3 = ground arith
all_sound p h d4 = ground arith
all_sound p h d5 = ground arith
all_sound p h d6 = ground arith
all_sound p h d7 = ground arith
all_sound p h d8 = ground arith
all_sound p h d9 = ground arith
all_sound p h d10 = ground arith
all_sound p h d11 = ground arith
all_sound p h d12 = ground arith

-- A law in two or three variables holds when its table does.
table_two :
    (p q : Thirteen → Thirteen → Thirteen)
    → all (λ a. all (λ b. same (p a b) (q a b))) ≡ true
    → (a b : Thirteen) → p a b ≡ q a b
table_two p q h a b = (same_iff _ _).0 (all_sound _ (all_sound _ h a) b)

table_three :
    (p q : Thirteen → Thirteen → Thirteen → Thirteen)
    → all (λ a. all (λ b. all (λ c. same (p a b c) (q a b c)))) ≡ true
    → (a b c : Thirteen) → p a b c ≡ q a b c
table_three p q h a b c = (same_iff _ _).0 (all_sound _ (all_sound _ (all_sound _ h a) b) c)

pub plus_assoc : (a b c : Thirteen) → plus (plus a b) c ≡ plus a (plus b c)
unfolding all
plus_assoc = table_three (λ a b c. plus (plus a b) c) (λ a b c. plus a (plus b c)) refl

pub plus_comm : (a b : Thirteen) → plus a b ≡ plus b a
unfolding all
plus_comm = table_two plus (λ a b. plus b a) refl

pub times_assoc : (a b c : Thirteen) → times (times a b) c ≡ times a (times b c)
unfolding all
times_assoc = table_three (λ a b c. times (times a b) c) (λ a b c. times a (times b c)) refl

pub times_comm : (a b : Thirteen) → times a b ≡ times b a
unfolding all
times_comm = table_two times (λ a b. times b a) refl

pub times-plus : (a b c : Thirteen) → times a (plus b c) ≡ plus (times a b) (times a c)
unfolding all
times-plus = table_three (λ a b c. times a (plus b c)) (λ a b c. plus (times a b) (times a c)) refl

pub inverse?-some :
    (a : Thirteen) → a ≢ d0 → (b : Thirteen) × (inverse? a ≡ some b) × (times a b ≡ d1)
inverse?-some d0 h = absurd (h refl)
inverse?-some d1 h = (d1, refl, refl)
inverse?-some d2 h = (d7, refl, refl)
inverse?-some d3 h = (d9, refl, refl)
inverse?-some d4 h = (d10, refl, refl)
inverse?-some d5 h = (d8, refl, refl)
inverse?-some d6 h = (d11, refl, refl)
inverse?-some d7 h = (d2, refl, refl)
inverse?-some d8 h = (d5, refl, refl)
inverse?-some d9 h = (d3, refl, refl)
inverse?-some d10 h = (d4, refl, refl)
inverse?-some d11 h = (d6, refl, refl)
inverse?-some d12 h = (d12, refl, refl)

pub zero-plus : (a : Thirteen) → plus d0 a ≡ a
unfolding all
zero-plus = table_two (λ _ a. plus d0 a) (λ _ a. a) refl d0

pub plus-opposite : (a : Thirteen) → plus a (opposite a) ≡ d0
unfolding all
plus-opposite = table_two (λ _ a. plus a (opposite a)) (λ _ _. d0) refl d0

pub one-times : (a : Thirteen) → times d1 a ≡ a
unfolding all
one-times = table_two (λ _ a. times d1 a) (λ _ a. a) refl d0

pub d1-ne-d0 : d1 ≢ d0
d1-ne-d0 h = cc

instance abbrev pub thirteen : Field Thirteen
thirteen = record {
  zero = d0;
  one = d1;
  add = plus;
  sub = λ a b. plus a (opposite b);
  mul = times;
  neg = opposite;
  inverse = inverse?;
  beq = same;
  add_assoc = plus_assoc;
  add_comm = plus_comm;
  zero-add = zero-plus;
  add-neg = plus-opposite;
  sub_lem = λ a b. refl;
  mul_assoc = times_assoc;
  mul_comm = times_comm;
  one-mul = one-times;
  mul-add = times-plus;
  one-ne-zero = d1-ne-d0;
  inverse-zero = refl;
  inverse-some = inverse?-some;
  beq_iff = same_iff;
}

pub of_residue-val : (a : Thirteen) → of_residue (val a % 13) ≡ a
of_residue-val a = ground arith

pub val-lt : (a : Thirteen) → val a < 13
val-lt a = ground arith

pub val-of_residue : (n : ℕ) → n < 13 → val (of_residue (n % 13)) ≡ n
val-of_residue zero h = refl
val-of_residue (suc zero) h = refl
val-of_residue (suc (suc zero)) h = refl
val-of_residue (suc (suc (suc zero))) h = refl
val-of_residue (suc (suc (suc (suc zero)))) h = refl
val-of_residue (suc (suc (suc (suc (suc zero))))) h = refl
val-of_residue (suc (suc (suc (suc (suc (suc zero)))))) h = refl
val-of_residue (suc (suc (suc (suc (suc (suc (suc zero))))))) h = refl
val-of_residue (suc (suc (suc (suc (suc (suc (suc (suc zero)))))))) h = refl
val-of_residue (suc (suc (suc (suc (suc (suc (suc (suc (suc zero))))))))) h = refl
val-of_residue (suc (suc (suc (suc (suc (suc (suc (suc (suc (suc zero)))))))))) h = refl
val-of_residue (suc (suc (suc (suc (suc (suc (suc (suc (suc (suc (suc zero))))))))))) h = refl
val-of_residue (suc (suc (suc (suc (suc (suc (suc (suc (suc (suc (suc (suc zero)))))))))))) h = refl
val-of_residue (suc (suc (suc (suc (suc (suc (suc (suc (suc (suc (suc (suc (suc n))))))))))))) h =
    absurd (omega arith)

pub order_small : 13 < 2 ^ 32
order_small = omega arith

instance abbrev pub thirteen_prime : PrimeField32 Thirteen
thirteen_prime = record {
  order = 13;
  of_u32 = λ n. of_residue (n % 13);
  as_canonical_u32 = val;
  canonical-lt = val-lt;
  of_u32-canonical = of_residue-val;
  canonical-of_u32 = val-of_residue;
  order-lt = order_small;
}
