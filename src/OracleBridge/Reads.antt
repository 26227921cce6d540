-- ===== src/OracleBridge/Reads.antt =====
-- Readers on what was written, for the reader of crates/tscp-verifier/src/oracle_bridge.rs.
use tscp_anchor.Prelude.{
  ℕ, suc, ◌+◌, ◌*◌, ◌/◌, ◌^◌, ◌<◌, ◌≤◌, ◌≡◌, refl, sym, ap, Bool, true, false, List, [], ◌∷◌, ◌++◌,
  length, length-append, take-append, drop-append, ltb, leb, arith,
}
use mathlib.Core.List.{append_assoc}
use native.Mathlib.Nat.{le-div_iff_mul-le}
use tscp_anchor.Prelude.Bytes.{Bytes, le_bytes, length-le_bytes, le_value-le_bytes}
use tscp_anchor.OracleBridge.{BridgeError, ok}
use tscp_anchor.OracleBridge.Decode.{
  Reader, ◌>>=◌, ◌>>◌, require, take, read_uint, read_bounded_len, repeat,
}

pub record Reads {A : Type 0} (r : Reader A) (bytes : Bytes) (a : A) : Type 0 where
  pub reads : (rest : Bytes) → r (bytes ++ rest) ≡ ok (a, rest)

pub Reads-bind :
    {A B : Type 0} {r : Reader A} {xs ys : Bytes} {a : A} {b : B} (g : A → Reader B)
    → Reads r xs a
    → Reads (g a) ys b
    → Reads (r >>= g) (xs ++ ys) b
Reads-bind {xs = xs} {ys = ys} g hr hg = record {
  reads = λ rest. rw (append_assoc xs ys rest, hr.reads (ys ++ rest)) (hg.reads rest);
}

pub Reads-require :
    {B : Type 0} {t : Bool} {k : Reader B} {ys : Bytes} {b : B} (e : BridgeError)
    → t ≡ true
    → Reads k ys b
    → Reads (require t e >> k) ys b
Reads-require e h hk = record { reads = λ rest. rw h (hk.reads rest) }

-- What ends a reader reads nothing.
pub Reads-end :
    {A B : Type 0} {r : Reader A} {xs : Bytes} {a : A} {b : B} (g : A → Reader B)
    → Reads r xs a
    → ((rest : Bytes) → g a rest ≡ ok (b, rest))
    → Reads (r >>= g) xs b
Reads-end g hr hg = record { reads = λ rest. rw (hr.reads rest) (hg rest) }

fits : (n m k : ℕ) → k ≡ n + m → leb n k ≡ true
fits n m k h = ground arith

pub Reads-take : (xs : Bytes) (n : ℕ) → length xs ≡ n → Reads (take n) xs xs
unfolding take
Reads-take xs n h = record {
  reads = λ rest.
      rw
        (
          sym h,
          fits (length xs) (length rest) (length (xs ++ rest)) (length-append xs rest),
          take-append xs rest,
          drop-append xs rest,
        )
        refl;
}

pub Reads-uint : (w n : ℕ) → n < 256 ^ w → Reads (read_uint w) (le_bytes w n) n
unfolding read_uint
Reads-uint w n h = record {
  reads = λ rest.
      rw ((Reads-take (le_bytes w n) w (length-le_bytes w n)).reads rest)
        (ap (λ m. ok (m, rest)) (le_value-le_bytes w n h));
}

not_more : (n budget : ℕ) → n ≤ budget → ltb budget n ≡ false
not_more n budget h = ground arith

pub Reads-bounded :
    {B : Type 0} {ys : Bytes} {b : B} (g : ℕ → Reader B) (w n : ℕ)
    → 0 < w
    → n < 2 ^ 32
    → n * w ≤ length ys
    → Reads (g n) ys b
    → Reads (read_bounded_len w >>= g) (le_bytes 4 n ++ ys) b
unfolding read_bounded_len
Reads-bounded {ys = ys} g w n hw hn budget hg = record {
  reads = λ rest.
      rw
        (
          append_assoc (le_bytes 4 n) ys rest,
          (Reads-uint 4 n (omega arith)).reads (ys ++ rest),
          not_more n (length (ys ++ rest) / w)
              ((le-div_iff_mul-le hw).1 (omega (arith, budget, length-append ys rest))),
        )
        (hg.reads rest);
}

-- Items of at least `w` bytes, written one after the other.
pub data Written {A : Type 0} (r : Reader A) (w : ℕ) : List A → Bytes → Type 0 where
  nothing : Written r w [] []
  item :
      {a : A} {as' : List A} {bs bs' : Bytes}
      → Reads r bs a
      → w ≤ length bs
      → Written r w as' bs'
      → Written r w (a ∷ as') (bs ++ bs')

pub Written-length :
    {A : Type 0} {r : Reader A} (w : ℕ) {as' : List A} {bs : Bytes}
    → Written r w as' bs
    → length as' * w ≤ length bs
Written-length w nothing = omega arith
Written-length w (item {a} {as'} {bs} {bs'} h hw rest) =
    let tail : length as' * w ≤ length bs' = Written-length w rest in
    omega (arith, length-append bs bs', suc-mul (length as') w)
  where
    suc-mul : (n w : ℕ) → suc n * w ≡ n * w + w
    suc-mul n w = omega arith

pub Reads-repeat :
    {A : Type 0} {r : Reader A} {w : ℕ} {as' : List A} {bs : Bytes}
    → Written r w as' bs
    → Reads (repeat (length as') r) bs as'
unfolding repeat
Reads-repeat nothing = record { reads = λ rest. refl }
Reads-repeat (item {a} {as'} {bs} {bs'} h hw tail) =
    let t : Reads (repeat (length as') _) bs' as' = Reads-repeat tail in
    record {
      reads = λ rest. rw (append_assoc bs bs' rest, h.reads (bs' ++ rest), t.reads rest) refl;
    }
