-- ===== src/DeepVerify/Links.antt =====
-- The links whose constraints `evaluate_air_constraint` of crates/prover-server/src/deep_ali.rs finds zero.
use tscp_anchor.Prelude.{
  ℕ, ◌+◌, ◌≤◌, ◌<◌, ◌≡◌, ◌≢◌, refl, sym, ap, ap₂, ◌∙◌, Bool, true, false, not, Option, none, some,
  List, [], ◌∷◌, leb, if◌then◌else◌, >>=-eq-some, arith,
}
use tscp_anchor.Field.{Field, PrimeField32, ◌⊗◌}
use tscp_anchor.Field.Laws.{eq_zero_of_mul, inverse-mul, zero-mul}
use tscp_anchor.Oracle.{RowMajorMatrix}
use tscp_anchor.OracleBridge.WellFormed.{All, none_left, each}
use tscp_anchor.DeepAli.{DeepAliError, Result, ok, err, ◌>>?◌}
use tscp_anchor.DeepQuotient.{BabyBearDeepAli}
use tscp_anchor.DeepQuotient.Single.{IsFull}
use tscp_anchor.DeepVerify.{
  AlgebraicLink, TraceEvaluator, row_point, from_trace, local_evaluation, local_loop, fold_sum,
  constraint_value, scaled_constraint, evaluate_air_constraint, links_loop,
}
use tscp_anchor.DeepVerify.Rows.{
  Adds, cell, IsEvaluator, from_trace-IsEvaluator, local_evaluation-cell,
}

-- Inversion of `?`.
pub >>?-eq-ok {ℓ κ} :
    {A : Type ℓ} {B : Type κ} (m : Option (Result A)) (g : A → Option (Result B)) {b : B}
    → (m >>? g) ≡ some (ok b)
    → (a : A) × (m ≡ some (ok a)) × (g a ≡ some (ok b))
>>?-eq-ok none g h = cc
>>?-eq-ok (some (ok a)) g h = (a, refl, h)
>>?-eq-ok (some (err e)) g h = cc

-- A guard that let the code through.
admitted {ℓ} :
    {A : Type ℓ} {a : A} (b : Bool) (e : DeepAliError) (m : Option (Result A))
    → (if b then some (err e) else m) ≡ some (ok a)
    → (b ≡ false) × (m ≡ some (ok a))
admitted true e m h = cc
admitted false e m h = (refl, h)

module _ {F : Type 0} ⦃f : Field F⦄ where
  -- The cells that a link reads at a row, and that they are there.
  abbrev pub cells : RowMajorMatrix F → ℕ → List ℕ → List ℕ → List F
  cells trace r (col ∷ cols) (shift ∷ shifts) =
      cell trace (r + shift) col ∷ cells trace r cols shifts
  cells trace r _ _ = []

  abbrev pub InTrace : RowMajorMatrix F → ℕ → List ℕ → List ℕ → Type 0
  InTrace trace r (col ∷ cols) (shift ∷ shifts) =
      (r + shift < trace.height) × (col < trace.width) × InTrace trace r cols shifts
  InTrace trace r _ _ = Unit

module _ {F : Type 0} ⦃f : Field F⦄ ⦃p : PrimeField32 F⦄ where
  -- A link without a numerator, at a row with which it stays within the trace.
  pub record AtRow (trace : RowMajorMatrix F) (r : ℕ) (link : AlgebraicLink F) : Type 0 where
    pub point : link.deep_point ≡ row_point r
    pub no_numerator : link.numerator ≡ []
    pub inside : InTrace trace r link.involved_columns link.shifts

  module _ (trace : RowMajorMatrix F) (full : IsFull trace) (some_row : 0 < trace.height)
      (small : trace.height ≤ p.order) (adds : Adds F) where
    local_loop-cells :
        (n r : ℕ) (ev : TraceEvaluator F) (cols shifts : List ℕ) (vs : List F)
        → IsEvaluator trace full some_row small ev
        → InTrace trace r cols shifts
        → local_loop n ev (row_point r) cols shifts ≡ some (ok vs)
        → vs ≡ cells trace r cols shifts
    unfolding local_loop
    local_loop-cells n r ev [] shifts vs e inside h = cc
    local_loop-cells n r ev (col ∷ cols) [] vs e inside h = cc
    local_loop-cells n r ev (col ∷ cols) (shift ∷ shifts) vs e (row, column, inside) h =
        let rest = local_loop n ev (row_point r) cols shifts in
        let (low, h1) = admitted (leb n col) _ _ h in
        let (v, here, h2) = >>?-eq-ok (local_evaluation ev (row_point r) col shift) _ h1 in
        let (us, others, h3) = >>?-eq-ok rest _ h2 in
        let ih = local_loop-cells n r ev cols shifts us e inside others in
        let there =
          local_evaluation-cell trace full some_row small adds ev r shift col e row column in
        cc

    -- A constraint that evaluates to zero at a row has cells that sum to zero.
    evaluate_air_constraint-zero :
        (self : BabyBearDeepAli) (link : AlgebraicLink F) (r : ℕ)
        → evaluate_air_constraint self trace link ≡ some (ok f.zero)
        → AtRow trace r link
        → fold_sum f.zero (cells trace r link.involved_columns link.shifts) ≡ f.zero
    unfolding evaluate_air_constraint scaled_constraint constraint_value
    evaluate_air_constraint-zero self link r h at =
        let (ev, made, e) = from_trace-IsEvaluator trace full some_row small in
        let (ev', made', h1) = >>?-eq-ok (from_trace trace) _ h in
        let (vs, ran, h2) =
          >>?-eq-ok
            (local_loop self.num_columns ev' link.deep_point link.involved_columns link.shifts) _
            h1 in
        let same : ev' ≡ ev = cc in
        let read : local_loop self.num_columns ev (row_point r) link.involved_columns link.shifts
            ≡ some (ok vs) =
          ap₂ (λ ev z. local_loop self.num_columns ev z link.involved_columns link.shifts)
            (sym same) (sym at.point)
          ∙ ran in
        let locals : vs ≡ cells trace r link.involved_columns link.shifts =
          local_loop-cells self.num_columns r ev link.involved_columns link.shifts vs e at.inside
            read in
        let (off, h3) = admitted (f.beq link.denominator f.zero) _ _ h2 in
        let (inv, inverted, h4) = >>=-eq-some (f.inverse link.denominator) _ h3 in
        let value : constraint_value link vs ≡ fold_sum f.zero vs = rw at.no_numerator refl in
        let product : constraint_value link vs ⊗ inv ≡ f.zero = cc in
        ap (fold_sum f.zero) (sym locals)
        ∙ eq_zero_of_mul (not_zero inverted)
            (f.mul_comm inv (fold_sum f.zero vs) ∙ ap (λ t. t ⊗ inv) (sym value) ∙ product)
      where
        not_zero : {d inv : F} → f.inverse d ≡ some inv → inv ≢ f.zero
        not_zero {d} {inv} h z =
            f.one-ne-zero (sym (inverse-mul h) ∙ ap (f.mul d) z ∙ f.mul_comm d f.zero ∙ zero-mul d)

    -- Each link's constraint evaluates to zero.
    pub links_loop-zero :
        (self : BabyBearDeepAli) (links : List (AlgebraicLink F))
        → links_loop self trace links ≡ some (ok tt)
        → All (λ link. evaluate_air_constraint self trace link ≡ some (ok f.zero)) links
    unfolding links_loop
    links_loop-zero self [] h = none_left
    links_loop-zero self (link ∷ links) h =
        let (v, here, h1) = >>?-eq-ok (evaluate_air_constraint self trace link) _ h in
        let (is_zero, h2) = admitted (not (f.beq v f.zero)) _ _ h1 in
        each (here ∙ ap (λ v. some (ok v)) ((f.beq_iff v f.zero).0 (twice _ is_zero)))
          (links_loop-zero self links h2)
      where
        twice : (b : Bool) → not b ≡ false → b ≡ true
        twice b h = ground arith

    -- The links that stand at a row have cells that sum to zero there.
    abbrev pub Zero : AlgebraicLink F → Type 0
    Zero link =
        (r : ℕ)
        → AtRow trace r link
        → fold_sum f.zero (cells trace r link.involved_columns link.shifts) ≡ f.zero

    pub links-Zero :
        (self : BabyBearDeepAli) (links : List (AlgebraicLink F))
        → All (λ link. evaluate_air_constraint self trace link ≡ some (ok f.zero)) links
        → All Zero links
    links-Zero self [] none_left = none_left
    links-Zero self (link ∷ links) (each h hs) =
        each (λ r at. evaluate_air_constraint-zero self link r h at) (links-Zero self links hs)
