-- ===== src/Padding/Level.antt =====
-- The padded width of a level: lawful for a state's format, and the least that is.
use native.Mathlib.Nat.{pow-succ', pow-le-pow_right}
use rola.Prelude.{
  All, Bool-cases, List, [], ap, arith, false, inl, inr, length, ltb, max, ok, refl, suc, true,
  zero, ℕ, ◌%◌, ◌*◌, ◌-◌, ◌/◌, ◌<◌, ◌==◌, ◌^◌, ◌∷◌, ◌≡◌, ◌≤◌,
}
use rola.State.{Routes, format_of, presented}
use rola.State.Widths.{IsLawful}
use rola.State.Format.{state_format_iff}
use rola.Padding.{bit_length_by, bit_length, padded_level_width, padded_widths}

bit_length_by-bounds :
    (digits n : ℕ)
    → n ≤ digits
    → (n < 2 ^ bit_length_by digits n) × (0 < n → 2 ^ bit_length_by digits n ≤ 2 * n)
unfolding bit_length_by
bit_length_by-bounds zero zero small = (omega arith, λ h. elim h [ ])
bit_length_by-bounds zero (suc n) small = absurd (omega arith)
bit_length_by-bounds (suc digits) zero small = (omega arith, λ h. elim h [ ])
bit_length_by-bounds (suc digits) (suc n) small =
    let (above, below) = bit_length_by-bounds digits (suc n / 2) (omega arith) in
    (
      omega (arith, above, pow-succ' 2 (bit_length_by digits (suc n / 2))),
      λ h. elim (Bool-cases (suc n / 2 == 0)) [
        | inl no_half ↦ low no_half
        | inr some_half ↦
            omega (arith, below (half some_half), pow-succ' 2 (bit_length_by digits (suc n / 2)))
      ],
    )
  where
    half : (suc n / 2 == 0) ≡ false → 0 < suc n / 2
    half h = ground arith

    is_zero : (suc n / 2 == 0) ≡ true → suc n / 2 ≡ 0
    is_zero h = ground arith

    of_zero : (d : ℕ) → bit_length_by d 0 ≡ 0
    of_zero zero = refl
    of_zero (suc d) = refl

    low : (suc n / 2 == 0) ≡ true → 2 ^ suc (bit_length_by digits (suc n / 2)) ≤ 2 * suc n
    low h = rw (is_zero h, of_zero digits) (omega arith)

power_steps : (a b : ℕ) → 2 ^ a < 2 * 2 ^ b → a ≤ b
power_steps zero b h = omega arith
power_steps (suc a) zero h = absurd (omega (arith, h, pow-succ' 2 a, positive a))
  where
    positive : (k : ℕ) → 0 < 2 ^ k
    positive zero = omega arith
    positive (suc k) = omega (arith, positive k, pow-succ' 2 k)
power_steps (suc a) (suc b) h =
    omega (arith, power_steps a b (omega (arith, h, pow-succ' 2 a, pow-succ' 2 b)))

-- The padded width of a level that has a digit is lawful for a state's format, admits the level's
-- digits, and is the least lawful width that does.
pub padded_level_width_least :
    (width : ℕ)
    → 0 < width
    → (padded : ℕ) × (padded_level_width width ≡ ok padded)
      × IsLawful padded
      × (width ≤ padded)
      × ((other : ℕ) → IsLawful other → width ≤ other → padded ≤ other)
unfolding padded_level_width bit_length
padded_level_width_least width pos = (
  2 ^ bit_length (needed - 1),
  rw (no_refusal) refl,
  record { power = (bit_length (needed - 1), refl); floor = omega (arith, bounds.0) },
  omega (arith, bounds.0),
  λ other l le. least l.power.0 other l.power.1 l.floor le,
)
  where
    needed : ℕ
    needed = max width 16

    no_refusal : ltb width 1 ≡ false
    no_refusal = ground arith

    bounds :
        (needed - 1 < 2 ^ bit_length (needed - 1))
        × (0 < needed - 1 → 2 ^ bit_length (needed - 1) ≤ 2 * (needed - 1))
    bounds = bit_length_by-bounds (needed - 1) (needed - 1) (omega arith)

    least :
        (k other : ℕ)
        → other ≡ 2 ^ k
        → 16 ≤ other
        → width ≤ other
        → 2 ^ bit_length (needed - 1) ≤ other
    least k other e floor le = rw e (
        pow-le-pow_right {n = 2} (omega arith)
          (power_steps (bit_length (needed - 1)) k (omega (arith, bounds.1 (omega arith), e))))

padded_widths-IsLawful :
    (widths : List ℕ)
    → All (λ w. 0 < w) widths
    → (padded : List ℕ) × (padded_widths widths ≡ ok padded)
      × All IsLawful padded
      × (length padded ≡ length widths)
unfolding padded_widths
padded_widths-IsLawful [] p = ([], refl, tt, refl)
padded_widths-IsLawful (width ∷ widths) p =
    let (padded, e, l, admits, least) = padded_level_width_least width p.0 in
    let (rest, e', ls, n) = padded_widths-IsLawful widths p.1 in
    (padded ∷ rest, rw (e, e') refl, (l, ls), ap suc n)

-- Whatever widths a call's levels have, each with a digit and one level at least, their padded widths
-- exist, and a call that presents them, with an even value width, presents a lawful format.
pub padded_widths_accepted :
    (routes : Routes) (d_v bh : ℕ)
    → All (λ w. 0 < w) routes.widths
    → 0 < length routes.widths
    → d_v % 2 ≡ 0
    → (padded : List ℕ) × (padded_widths routes.widths ≡ ok padded)
      × (format_of (record routes { widths = padded }) d_v bh
          ≡ ok (presented (record routes { widths = padded }) d_v bh))
unfolding format_of presented
padded_widths_accepted routes d_v bh some_digit some_level even =
    let (padded, e, l, n) = padded_widths-IsLawful routes.widths some_digit in
    (
      padded,
      e,
      (state_format_iff (presented (record routes { widths = padded }) d_v bh) (omega (arith, n))).1
          (record { levels = refl; lawful = l; order = refl; page = refl; pairs = even }),
    )
