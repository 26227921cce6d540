-- ===== src/Fri/Fold.antt =====
-- The folding step of crates/oracle-layer/src/fri.rs.
use tscp_anchor.Prelude.{
  ℕ, zero, suc, ◌+◌, ◌/◌, ◌^◌, ◌≤◌, ◌≡◌, ◌≢◌, refl, sym, ap, ◌∙◌, true, ◌&&◌, Option, some, List,
  [], ◌∷◌, length, get_elem?, get_elem?-some, take, map, length-take, length-map, leb, ◌==◌, ==_iff,
  check, >>=-eq-some, check-eq-some, arith,
}
use tscp_anchor.Prelude.Bits.{is_power_of_two, is_power_of_two-pow, pow_two-suc, pow_two-pos}
use tscp_anchor.Field.{Field, ◌⊗◌, from_u64}
use tscp_anchor.Field.Laws.{eq_zero_of_mul}
use tscp_anchor.Fri.{folded_value, fold_at, fold_loop, fri_fold_step, fold_domain}

module _ {ℓ} {F : Type ℓ} ⦃f : Field F⦄ where
  -- No element of the list is zero.
  abbrev pub NonZero : List F → Type ℓ
  NonZero xs = (i : ℕ) (x : F) → get_elem? xs i ≡ some x → x ≢ f.zero

  pub length-fold_domain : (d : List F) → length (fold_domain d) ≡ length d / 2
  unfolding fold_domain
  length-fold_domain d =
      omega (arith, length-map (take (length d / 2) d) (λ x. x ⊗ x), length-take (length d / 2) d)

  pub get_elem?-map_sq :
      (xs : List F) (n i : ℕ) (y : F)
      → get_elem? (map (λ x. x ⊗ x) (take n xs)) i ≡ some y
      → (x : F) × (get_elem? xs i ≡ some x) × (y ≡ x ⊗ x)
  get_elem?-map_sq xs zero i y h = cc
  get_elem?-map_sq [] (suc n) i y h = cc
  get_elem?-map_sq (x ∷ xs) (suc n) zero y h = (x, refl, cc)
  get_elem?-map_sq (x ∷ xs) (suc n) (suc i) y h = get_elem?-map_sq xs n i y h

  pub fold_domain-NonZero : (d : List F) → NonZero d → NonZero (fold_domain d)
  unfolding fold_domain
  fold_domain-NonZero d nz i y h z =
      let (x, e, sq) = get_elem?-map_sq d (length d / 2) i y h in
      nz i x e (eq_zero_of_mul (nz i x e) (sym sq ∙ z))

  -- A returned fold holds, at each index, the value of the closure there.
  pub record IsFold (e d : List F) (beta : F) (e' : List F) : Type ℓ where
    pub two_inv : F
    pub two_inverse : f.inverse (from_u64 2) ≡ some two_inv
    pub size : length e' ≡ length e / 2
    pub same_size : length d ≡ length e
    pub values :
        (i : ℕ) (v : F)
        → get_elem? e' i ≡ some v
        → fold_at e d beta two_inv (length e / 2) i ≡ some v

  values_cons :
      (g : ℕ → Option F) (i : ℕ) (v : F) (ws : List F)
      → g i ≡ some v
      → ((j : ℕ) (u : F) → get_elem? ws j ≡ some u → g (suc i + j) ≡ some u)
      → (j : ℕ) (u : F) → get_elem? (v ∷ ws) j ≡ some u
      → g (i + j) ≡ some u
  values_cons g i v ws first rest zero u h = ap g {x = i + 0} {y = i} (omega arith) ∙ first ∙ h
  values_cons g i v ws first rest (suc j) u h =
      ap g {x = i + suc j} {y = suc i + j} (omega arith) ∙ rest j u h

  fold_loop_values :
      (e d : List F) (beta two_inv : F) (half i count : ℕ) (vs : List F)
      → fold_loop e d beta two_inv half i count ≡ some vs
      → (length vs ≡ count)
        × ((j : ℕ) (v : F)
            → get_elem? vs j ≡ some v
            → fold_at e d beta two_inv half (i + j) ≡ some v)
  unfolding fold_loop
  fold_loop_values e d beta t half i zero vs h =
      let empty : [] ≡ vs = cc in rw (← empty) (refl, λ j v g. cc)
  fold_loop_values e d beta t half i (suc count) vs h =
      let (v, first, h') = >>=-eq-some (fold_at e d beta t half i) _ h in
      let (ws, rest, q) = >>=-eq-some (fold_loop e d beta t half (suc i) count) _ h' in
      let ih = fold_loop_values e d beta t half (suc i) count ws rest in
      let whole : v ∷ ws ≡ vs = cc in
      rw (← whole) (ap suc ih.0, values_cons (fold_at e d beta t half) i v ws first ih.1)

  -- A fold that returns has half the length of its input, over a domain of the same length, and
  -- holds at each index the value of the closure there.
  pub fri_fold_step-IsFold :
      (e d : List F) (beta : F) (e' : List F)
      → fri_fold_step e d beta ≡ some e'
      → IsFold e d beta e'
  unfolding fri_fold_step
  fri_fold_step-IsFold e d beta e' h =
      let (u, lengths, h1) = >>=-eq-some (check (length d == length e)) _ h in
      let (u', power, h2) =
        >>=-eq-some (check (is_power_of_two (length e) && leb 2 (length e))) _ h1 in
      let (t, inverse, h3) = >>=-eq-some (f.inverse (from_u64 2)) _ h2 in
      let (count, values) = fold_loop_values e d beta t (length e / 2) 0 (length e / 2) e' h3 in
      record {
        two_inv = t;
        two_inverse = inverse;
        size = count;
        same_size = (==_iff _ _).0 (check-eq-some _ lengths);
        values = λ i v g.
            ap (fold_at e d beta t (length e / 2)) {x = i} {y = 0 + i} (omega arith) ∙ values i v g;
      }

  fold_loop_total :
      (e d : List F) (beta t : F) (half i count : ℕ)
      → NonZero d
      → i + count ≤ length d
      → i + count + half ≤ length e
      → (vs : List F) × (fold_loop e d beta t half i count ≡ some vs)
  unfolding fold_loop fold_at
  fold_loop_total e d beta t half i zero nz hd he = ([], refl)
  fold_loop_total e d beta t half i (suc count) nz hd he =
      let (x, gx) = get_elem?-some d i (omega arith) in
      let (a, ga) = get_elem?-some e i (omega arith) in
      let (b, gb) = get_elem?-some e (i + half) (omega arith) in
      let (y, gy, _) = f.inverse-some x (nz i x gx) in
      let (vs, gs) = fold_loop_total e d beta t half (suc i) count nz (omega arith) (omega arith) in
      (folded_value t y beta a b ∷ vs, rw (gx, ga, gb, gy, gs))

  -- fri_fold_step returns on 2^(k+1) evaluations over a domain of the same size without zero, where
  -- 2 is not zero.
  pub fri_fold_step_total :
      (e d : List F) (beta : F) (k : ℕ)
      → from_u64 2 ≢ f.zero
      → NonZero d
      → length e ≡ 2 ^ suc k
      → length d ≡ 2 ^ suc k
      → (e' : List F) × (fri_fold_step e d beta ≡ some e')
  unfolding fri_fold_step
  fri_fold_step_total e d beta k two nz he hd =
      let (t, gt, _) = f.inverse-some (from_u64 2) two in
      let (e', ge) =
        fold_loop_total e d beta t (length e / 2) 0 (length e / 2) nz (omega (arith, he, hd))
          (omega (arith, he, hd)) in
      (
        e',
        rw
            (
              (==_iff (length d) (length e)).1 (hd ∙ sym he),
              ap is_power_of_two he ∙ is_power_of_two-pow (suc k),
              big,
              gt,
            )
            ge,
      )
    where
      big : leb 2 (length e) ≡ true
      big = ground (arith, he, pow_two-suc k, pow_two-pos k)
