-- ===== src/Prelude/Decimal.antt =====
-- Numbers as `Display` of Rust's standard library writes them: their digits, the leading first.
use Prim.Native.Nat.{ℕ, zero, suc, ◌+◌, ◌-◌, ◌*◌, ◌/◌, ◌%◌, ◌^◌, ◌<◌}
use mathlib.Core.Path.{◌≡◌, refl, sym, ap, ◌∙◌}
use mathlib.Core.Logic.{inl, inr}
use mathlib.Core.List.{List, [], ◌∷◌, ◌++◌}
use native.Mathlib.Nat.{pow-succ', div-lt_iff_lt-mul}
use native.Mathlib.Omega.{arith}
use tscp_anchor.Prelude.Tests.{ltb, if◌then◌else◌, Bool-cases}
use tscp_anchor.Prelude.Text.{Text}

-- At most so many digits.
unfoldable pub digits : ℕ → ℕ → Text
digits zero n = []
digits (suc k) n =
    let rest = digits k (n / 10) in if ltb n 10 then (48 + n) ∷ [] else rest ++ (48 + n % 10) ∷ []

-- A number of 64 bits has at most 20 digits.
unfoldable pub display_u64 : ℕ → Text
unfolding digits
display_u64 n = digits 20 n

-- The number that digits write behind others.
value : ℕ → Text → ℕ
value acc [] = acc
value acc (c ∷ s) = value (10 * acc + (c - 48)) s

value-append : (acc : ℕ) (s t : Text) → value acc (s ++ t) ≡ value (value acc s) t
unfolding value
value-append acc [] t = refl
value-append acc (c ∷ s) t = value-append (10 * acc + (c - 48)) s t

value-digits : (k n : ℕ) → n < 10 ^ k → value 0 (digits k n) ≡ n
unfolding value digits
value-digits zero n h = omega arith
value-digits (suc k) n h = elim (Bool-cases (ltb n 10)) [
  | inl one ↦ rw one (omega arith)
  | inr more ↦ rw more (
      value-append 0 (digits k (n / 10)) ((48 + n % 10) ∷ [])
      ∙ ap (λ v. 10 * v + (48 + n % 10 - 48))
          (value-digits k (n / 10)
            ((div-lt_iff_lt-mul {k = 10} (omega arith)).1 (omega (arith, pow-succ' 10 k, h))))
      ∙ omega arith)
]

pub display_u64-injective :
    (n m : ℕ) → n < 2 ^ 64 → m < 2 ^ 64 → display_u64 n ≡ display_u64 m → n ≡ m
unfolding display_u64
display_u64-injective n m hn hm e =
    sym (value-digits 20 n (omega arith)) ∙ ap (value 0) e ∙ value-digits 20 m (omega arith)

-- No character of a text is a point.
pub data HasNoPoint : Text → Type 0 where
  none : HasNoPoint []
  more : {c : ℕ} {s : Text} → 47 < c → HasNoPoint s → HasNoPoint (c ∷ s)

HasNoPoint-append : {s t : Text} → HasNoPoint s → HasNoPoint t → HasNoPoint (s ++ t)
HasNoPoint-append none ht = ht
HasNoPoint-append (more h hs) ht = more h (HasNoPoint-append hs ht)

digits-HasNoPoint : (k n : ℕ) → HasNoPoint (digits k n)
unfolding digits
digits-HasNoPoint zero n = none
digits-HasNoPoint (suc k) n = elim (Bool-cases (ltb n 10)) [
  | inl one ↦ rw one (more (omega arith) none)
  | inr many ↦ rw many (HasNoPoint-append (digits-HasNoPoint k (n / 10)) (more (omega arith) none))
]

pub display_u64-HasNoPoint : (n : ℕ) → HasNoPoint (display_u64 n)
unfolding display_u64
display_u64-HasNoPoint n = digits-HasNoPoint 20 n

no_point_inside : (s t : Text) → ¬ HasNoPoint (s ++ 46 ∷ t)
no_point_inside [] t (more h hs) = omega arith
no_point_inside (c ∷ s) t (more h hs) = no_point_inside s t hs

head_tail {ℓ} : {A : Type ℓ} {x y : A} {xs ys : List A} → x ∷ xs ≡ y ∷ ys → xs ≡ ys
head_tail e = cc

-- What stands behind the last point.
pub behind_last_point :
    (s t u v : Text) → HasNoPoint u → HasNoPoint v → s ++ 46 ∷ u ≡ t ++ 46 ∷ v → u ≡ v
behind_last_point [] [] u v hu hv e = head_tail e
behind_last_point [] (c ∷ t) u v hu hv e = absurd (no_point_inside t v (rw (sym (head_tail e)) hu))
behind_last_point (c ∷ s) [] u v hu hv e = absurd (no_point_inside s u (rw (head_tail e) hv))
behind_last_point (c ∷ s) (d ∷ t) u v hu hv e = behind_last_point s t u v hu hv (head_tail e)
