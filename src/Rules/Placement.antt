-- ===== src/Rules/Placement.antt =====
-- engine/rules/paging.py `admission`: where a run of slots lands, and when it is refused.
use rola.Prelude.{
  Bool-cases, ap, arith, inl, inr, ltb, ok, raised, refl, runtime_error, sym, ℕ, ◌%◌, ◌*◌, ◌+◌, ◌-◌,
  ◌/◌, ◌<◌, ◌==◌, ◌∙◌, ◌≡◌, ◌≢◌, ◌≤◌, ◌⊎◌,
}
use native.Mathlib.Decide.{dec_lt}
use native.Mathlib.Nat.{
  zero-mod, mod-lt, div-add-mod, mod_self, mod-eq_of_lt, mul-add-div, div-eq_of_lt,
}
use rola.Rules.{neg_mod, placed, admission}

-- What the remainder `(-a) % e` is.
neg_mod_cases :
    (a e : ℕ)
    → 0 < e
    → ((a % e ≡ 0) × (neg_mod a e ≡ 0)) ⊎ ((0 < a % e) × (neg_mod a e + a % e ≡ e))
neg_mod_cases a e pos = elim (dec_lt 0 (a % e)) [
  | yes h ↦ inr (h, omega (arith, mod-lt a pos, mod-eq_of_lt {n = e - a % e} {m = e} (omega arith)))
  | no h ↦ let whole : e - a % e ≡ e = omega arith in inl (omega arith, rw whole (mod_self e))
]

-- The cursor, padded, is a whole number of extents.
padded-multiple : (a e : ℕ) → 0 < e → (k : ℕ) × (a + neg_mod a e ≡ e * k + 0)
padded-multiple a e pos = elim (neg_mod_cases a e pos) [
  | inl (r, m) ↦ (a / e, omega (arith, div-add-mod a e))
  | inr (r, m) ↦ (a / e + 1, omega (arith, div-add-mod a e))
]

-- A run that starts `y` slots into an extent and ends within it does not straddle two.
same_extent : (e p x y n : ℕ) → 0 < e → p ≡ e * x + y → 0 < n → y + n ≤ e → p / e ≡ (p + n - 1) / e
same_extent e p x y n pos start h fits =
    ap (λ k. k / e) start
    ∙ at y (omega arith)
    ∙ sym (ap (λ k. k / e) (omega arith) ∙ at (y + n - 1) (omega arith))
  where
    at : (z : ℕ) → z < e → (e * x + z) / e ≡ x
    at z lt = omega (arith, mul-add-div pos x z, div-eq_of_lt lt)

module _ (a e n : ℕ) (pos : 0 < e) where
  -- The padding is less than an extent.
  pub placed_bounds : (a ≤ placed a e n) × (placed a e n < a + e)
  unfolding placed
  placed_bounds = ground (arith, neg_mod_cases a e pos)

  -- A run of at most an extent lies in one extent.
  pub placed_within : 0 < n → n ≤ e → placed a e n / e ≡ (placed a e n + n - 1) / e
  unfolding placed
  placed_within h k = ground (
    arith,
    neg_mod_cases a e pos,
    div-add-mod a e,
    same_extent e a (a / e) (a % e) n pos,
    same_extent e (a + neg_mod a e) (padded-multiple a e pos).0 0 n pos (padded-multiple a e pos).1,
  )

-- For positive extents and a run that is not empty, a rule that returns has placed the run inside
-- the arena, at or after the cursor and less than an extent past it; a run that fits in an extent
-- does not straddle two.
pub admission_lem :
    (a cap e n : ℕ) {first : ℕ}
    → 0 < e
    → 0 < n
    → admission a cap e n ≡ ok first
    → (a ≤ first) × (first < a + e) × (first + n ≤ cap) × (n ≤ e → first / e ≡ (first + n - 1) / e)
unfolding admission
admission_lem a cap e n pos h run =
    ground (arith, placed_bounds a e n pos, placed_within a e n pos h)

-- Either answer, with what a caller needs to know of it.
pub admission_cases :
    (a cap e n : ℕ)
    → 0 < e
    → ((admission a cap e n ≡ raised runtime_error) × (cap < placed a e n + n) × (0 < n))
      ⊎ ((first : ℕ) × (admission a cap e n ≡ ok first)
          × (a ≤ first)
          × (first < a + e)
          × (0 < n → first + n ≤ cap)
          × (n ≡ 0 → first ≡ a)
          × (first ≡ placed a e n))
unfolding admission placed
admission_cases a cap e n pos = elim (Bool-cases (n == 0)) [
  | inl z ↦
      inr (a, ground arith, omega arith, omega arith, λ h. ground arith, λ h. refl, ground arith)
  | inr z ↦ elim (Bool-cases (ltb cap (placed a e n + n))) [
    | inl full ↦ inl (ground arith, ground arith, ground arith)
    | inr room ↦ inr (
      placed a e n,
      ground arith,
      (placed_bounds a e n pos).0,
      (placed_bounds a e n pos).1,
      λ h. ground arith,
      λ h. ground arith,
      refl,
    )
  ]
]

-- The first run of an arena starts at slot 0.
pub placed_zero : (e n : ℕ) → 0 < e → placed 0 e n ≡ 0
unfolding placed
placed_zero e n pos = ground (arith, neg_mod_cases 0 e pos, zero-mod e)

-- A cursor inside an extent, and a demand past the extent's end, open the next extent.
pub placed_next :
    (a e n : ℕ)
    → 0 < e
    → a % e ≢ 0
    → neg_mod a e < n
    → (placed a e n ≡ a + neg_mod a e) × (0 < neg_mod a e)
unfolding placed
placed_next a e n pos ne h = ground (arith, neg_mod_cases a e pos, mod-lt a pos)
