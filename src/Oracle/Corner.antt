-- ===== src/Oracle/Corner.antt =====
-- The corners of the cube pick the values of a table, and the loop that binds a prefix.
use tscp_anchor.Prelude.{
  ℕ, zero, suc, ◌*◌, ◌^◌, ◌<◌, ◌≡◌, refl, sym, ap, ◌∙◌, ◌⊎◌, inl, inr, List, [], ◌∷◌, length,
  get_or, arith,
}
use tscp_anchor.Prelude.Bits.{pow_two-suc}
use tscp_anchor.Field.{Field}
use tscp_anchor.Field.Ring.{ring, normal, x0, x1, plus, minus, times, unit, nought}
use tscp_anchor.Oracle.Mle.{bind, bind_all, mle, head_or, length-bind_pow}
use tscp_anchor.Oracle.Cube.{corner, corner_even, corner_odd}

parity : (i : ℕ) → ((j : ℕ) × (i ≡ 2 * j)) ⊎ ((j : ℕ) × (i ≡ suc (2 * j)))
parity zero = inl (0, refl)
parity (suc i) = elim (parity i) [
  | inl (j, h) ↦ inr (j, omega arith)
  | inr (j, h) ↦ inl (suc j, omega arith)
]

module _ {ℓ} {F : Type ℓ} ⦃f : Field F⦄ where
  get_or-bind_zero :
      (j m : ℕ) (vs : List F)
      → length vs ≡ 2 * m
      → get_or (bind f.zero vs) j f.zero ≡ get_or vs (2 * j) f.zero
  unfolding bind normal
  get_or-bind_zero j m [] h = refl
  get_or-bind_zero j m (a ∷ []) h = absurd (omega arith)
  get_or-bind_zero j zero (a ∷ b ∷ vs) h = absurd (omega arith)
  get_or-bind_zero zero (suc m) (a ∷ b ∷ vs) h =
      ring (a ∷ b ∷ []) (plus (times x0 (minus unit nought)) (times x1 nought)) x0 refl
  get_or-bind_zero (suc j) (suc m) (a ∷ b ∷ vs) h =
      get_or-bind_zero j m vs (omega arith)
      ∙ ap (λ i. get_or (a ∷ b ∷ vs) i f.zero) {x = suc (suc (2 * j))} {y = 2 * suc j} (omega arith)

  get_or-bind_one :
      (j m : ℕ) (vs : List F)
      → length vs ≡ 2 * m
      → get_or (bind f.one vs) j f.zero ≡ get_or vs (suc (2 * j)) f.zero
  unfolding bind normal
  get_or-bind_one j m [] h = refl
  get_or-bind_one j m (a ∷ []) h = absurd (omega arith)
  get_or-bind_one j zero (a ∷ b ∷ vs) h = absurd (omega arith)
  get_or-bind_one zero (suc m) (a ∷ b ∷ vs) h =
      ring (a ∷ b ∷ []) (plus (times x0 (minus unit unit)) (times x1 unit)) x1 refl
  get_or-bind_one (suc j) (suc m) (a ∷ b ∷ vs) h =
      get_or-bind_one j m vs (omega arith)
      ∙ ap (λ i. get_or (a ∷ b ∷ vs) i f.zero) {x = suc (suc (suc (2 * j)))} {y = suc (2 * suc j)}
          (omega arith)

  mle_cons : (p : F) (ps vs : List F) → mle (p ∷ ps) vs ≡ mle ps (bind p vs)
  unfolding mle bind_all
  mle_cons p ps vs = refl

  -- The extension at the corner of an index is the value there.
  pub mle-corner :
      (k i : ℕ) (vs : List F)
      → length vs ≡ 2 ^ k
      → i < 2 ^ k
      → mle (corner i 0 k) vs ≡ get_or vs i f.zero
  mle-corner zero i vs h small = single i vs h (omega arith)
    where
      single :
          (i : ℕ) (vs : List F) → length vs ≡ 1 → i ≡ 0 → mle (corner i 0 0) vs ≡ get_or vs i f.zero
      single i [] h z = absurd (omega arith)
      single zero (v ∷ vs) h z = unfold mle bind_all head_or corner in refl
      single (suc i) (v ∷ vs) h z = absurd (omega arith)
  mle-corner (suc k) i vs h small = elim (parity i) [
    | inl (j, e) ↦
        ap (λ i. mle (corner i 0 (suc k)) vs) e
        ∙ ap (λ ps. mle ps vs) (corner_even j k)
        ∙ mle_cons _ _ vs
        ∙ mle-corner k j (bind f.zero vs) (length-bind_pow f.zero vs k h)
            (omega (arith, pow_two-suc k))
        ∙ get_or-bind_zero j (2 ^ k) vs (h ∙ pow_two-suc k)
        ∙ ap (λ i. get_or vs i f.zero) (sym e)
    | inr (j, e) ↦
        ap (λ i. mle (corner i 0 (suc k)) vs) e
        ∙ ap (λ ps. mle ps vs) (corner_odd j k)
        ∙ mle_cons _ _ vs
        ∙ mle-corner k j (bind f.one vs) (length-bind_pow f.one vs k h)
            (omega (arith, pow_two-suc k))
        ∙ get_or-bind_one j (2 ^ k) vs (h ∙ pow_two-suc k)
        ∙ ap (λ i. get_or vs i f.zero) (sym e)
  ]
