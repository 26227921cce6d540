-- ===== src/DeepQuotient/Single.antt =====
-- `interpolate_subgroup` and `compute_single_quotient` of crates/prover-server/src/deep_ali.rs.
use tscp_anchor.Prelude.{
  ℕ, zero, suc, ◌+◌, ◌*◌, ◌^◌, ◌≤◌, ◌<◌, ◌≡◌, ◌≢◌, refl, sym, ap, ◌∙◌, true, false, ◌&&◌, some,
  List, [], ◌∷◌, length, get_elem?-get_or, get_or, ltb, ◌==◌, arith,
}
use tscp_anchor.Prelude.Bits.{pow_two-suc, pow_two-pos, is_power_of_two-pow}
use tscp_anchor.Field.{Field, PrimeField32, ◌⊕◌, ◌⊖◌, ◌⊗◌, exp, from_u64}
use tscp_anchor.Quotient.{eval_poly_horner}
use tscp_anchor.Oracle.{RowMajorMatrix}
use tscp_anchor.Fft.{interpolate_column}
use tscp_anchor.Fft.Interpolate.{ifft_interpolates}
use tscp_anchor.DeepAli.{ok, divide_linear}
use tscp_anchor.DeepAli.Linear.{divide_linear-exact}
use tscp_anchor.DeepAliFri.{primitive_root}
use tscp_anchor.DeepAliFri.Domain.{TwoAdic, primitive_root_half}
use tscp_anchor.DeepQuotient.{
  DeepQuery, matrix_get, evaluations_loop, interpolate_subgroup, compute_single_quotient,
}

-- A matrix that holds all its cells.
pub record IsFull {ℓ} {F : Type ℓ} (trace : RowMajorMatrix F) : Type 0 where
  pub cells : length trace.values ≡ trace.height * trace.width

index_in_range : (r c w h : ℕ) → r < h → c < w → r * w + c < h * w
index_in_range r c w h p q = grind arith

both_true : (a b c d : ℕ) → a < b → c < d → (ltb a b && ltb c d) ≡ true
both_true a b c d h k = ground arith

big_power : (k : ℕ) → ltb (2 ^ suc k) 2 ≡ false
big_power k = below (2 ^ suc k) (omega (arith, pow_two-suc k, pow_two-pos k))
  where
    below : (n : ℕ) → 2 ≤ n → ltb n 2 ≡ false
    below n h = ground arith

not_empty : (k : ℕ) → (2 ^ suc k == 0) ≡ false
not_empty k = positive (2 ^ suc k) (pow_two-pos (suc k))
  where
    positive : (n : ℕ) → 0 < n → (n == 0) ≡ false
    positive n h = ground arith

module _ {ℓ} {F : Type ℓ} ⦃f : Field F⦄ where
  pub matrix_get-some :
      (trace : RowMajorMatrix F) (r c : ℕ)
      → IsFull trace
      → r < trace.height
      → c < trace.width
      → matrix_get trace r c ≡ some (get_or trace.values (r * trace.width + c) f.zero)
  unfolding matrix_get
  matrix_get-some trace r c full lr lc =
      rw
        (
          both_true r trace.height c trace.width lr lc,
          get_elem?-get_or trace.values (r * trace.width + c) f.zero
              (omega (arith, full.cells, index_in_range r c trace.width trace.height lr lc)),
        )
        refl

  pub evaluations_loop-values :
      (trace : RowMajorMatrix F) (col r count : ℕ)
      → IsFull trace
      → col < trace.width
      → r + count ≡ trace.height
      → (vs : List F) × (evaluations_loop trace col r count ≡ some vs)
        × (length vs ≡ count)
        × ((j : ℕ) → j < count → matrix_get trace (r + j) col ≡ some (get_or vs j f.zero))
  unfolding evaluations_loop
  evaluations_loop-values trace col r zero full inside e =
      ([], refl, refl, λ j lt. absurd (omega arith))
  evaluations_loop-values trace col r (suc count) full inside e =
      let (vs, made, size, at) =
        evaluations_loop-values trace col (suc r) count full inside (omega arith) in
      let here = matrix_get-some trace r col full (omega arith) inside in
      (
        get_or trace.values (r * trace.width + col) f.zero ∷ vs,
        rw (here, made) refl,
        ap suc size,
        λ j lt. entry vs at j lt,
      )
    where
      entry :
          (vs : List F)
          → ((j : ℕ) → j < count → matrix_get trace (suc r + j) col ≡ some (get_or vs j f.zero))
          → (j : ℕ) → j < suc count
          → matrix_get trace (r + j) col
            ≡ some (get_or (get_or trace.values (r * trace.width + col) f.zero ∷ vs) j f.zero)
      entry vs at zero lt =
          ap (λ q. matrix_get trace q col) {x = r + 0} {y = r} (omega arith)
          ∙ matrix_get-some trace r col full (omega arith) inside
      entry vs at (suc j) lt =
          ap (λ q. matrix_get trace q col) {x = r + suc j} {y = suc r + j} (omega arith)
          ∙ at j (omega arith)

  -- A column of 2 or more coefficients has a quotient.
  divided :
      (coeffs : List F) (z : F)
      → 2 ≤ length coeffs
      → (q : List F) × (divide_linear coeffs z ≡ some (ok q))
        × ((x : F)
            → eval_poly_horner coeffs x
              ≡ (x ⊖ z) ⊗ eval_poly_horner q x ⊕ eval_poly_horner coeffs z)
  divided [] z h = absurd (omega arith)
  divided (c ∷ []) z h = absurd (omega arith)
  divided (c ∷ c' ∷ cs) z h = divide_linear-exact c c' z cs

module _ {ℓ} {F : Type ℓ} ⦃f : Field F⦄ ⦃p : PrimeField32 F⦄ where
  -- The polynomial of a column: its values at the powers of the root are the column's cells.
  pub record IsColumn (trace : RowMajorMatrix F) (col : ℕ) (coeffs : List F) : Type ℓ where
    pub root : F
    pub root_made : primitive_root trace.height ≡ some root
    pub size : length coeffs ≡ trace.height
    pub cells :
        (r : ℕ)
        → r < trace.height
        → matrix_get trace r col ≡ some (eval_poly_horner coeffs (exp root r))

  -- A quotient of a query: the column's polynomial less its value at the point, over the linear factor.
  pub record IsQuotient (trace : RowMajorMatrix F) (query : DeepQuery F) (q : List F) : Type ℓ where
    pub column : List F
    pub is_column : IsColumn trace query.column_index column
    pub quotient :
        (x : F)
        → eval_poly_horner column x
          ≡ (x ⊖ query.point) ⊗ eval_poly_horner q x ⊕ eval_poly_horner column query.point

  pub interpolate_subgroup-values :
      (t : TwoAdic F) (evaluations : List F) (k : ℕ)
      → k ≤ t.depth
      → from_u64 2 ≢ f.zero
      → length evaluations ≡ 2 ^ suc k
      → (coeffs : List F) × (w : F) × (interpolate_subgroup evaluations ≡ some (ok coeffs))
        × (primitive_root (2 ^ suc k) ≡ some w)
        × (length coeffs ≡ 2 ^ suc k)
        × ((i : ℕ)
            → i < 2 ^ suc k
            → eval_poly_horner coeffs (exp w i) ≡ get_or evaluations i f.zero)
  unfolding interpolate_subgroup interpolate_column
  interpolate_subgroup-values t evaluations k deep two size =
      let (w, root, turn) = primitive_root_half t k deep in
      let (coeffs, made, size', values) = ifft_interpolates evaluations w k size turn two in
      (
        coeffs,
        w,
        rw (size, not_empty k, big_power k, is_power_of_two-pow (suc k), root, made) refl,
        root,
        size' ∙ size,
        λ i lt. values i (omega arith),
      )

  -- On a full trace of 2^(k+1) rows, within the depth of the field's roots and where 2 is not zero,
  -- a query on one of its columns gets a quotient: the polynomial with the column's cells at the
  -- powers of the root is the quotient times x less the query's point, plus the polynomial's value
  -- there.
  pub compute_single_quotient-IsQuotient :
      (t : TwoAdic F) (trace : RowMajorMatrix F) (query : DeepQuery F) (k : ℕ)
      → k ≤ t.depth
      → from_u64 2 ≢ f.zero
      → trace.height ≡ 2 ^ suc k
      → IsFull trace
      → query.column_index < trace.width
      → (q : List F) × (compute_single_quotient trace query ≡ some (ok q))
        × IsQuotient trace query q
  unfolding compute_single_quotient
  compute_single_quotient-IsQuotient t trace query k deep two height full inside =
      let (vs, read, count, cells) =
        evaluations_loop-values trace query.column_index 0 trace.height full inside (omega arith) in
      let (coeffs, w, made, root, size, values) =
        interpolate_subgroup-values t vs k deep two (count ∙ height) in
      let (q, divided_by, quotient) =
        divided coeffs query.point (omega (arith, size, pow_two-suc k, pow_two-pos k)) in
      (
        q,
        rw (read, made) divided_by,
        record {
          column = coeffs;
          is_column = record {
            root = w;
            root_made = ap primitive_root height ∙ root;
            size = size ∙ sym height;
            cells = λ r lr.
                ap (λ n. matrix_get trace n query.column_index) {x = r} {y = 0 + r} (omega arith)
                ∙ cells r lr
                ∙ ap some (sym (values r (omega arith)));
          };
          quotient = quotient;
        },
      )
