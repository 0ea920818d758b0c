-- ===== src/Padding/Tests.antt =====
-- A level of 31 digits, and a call of two levels.
use rola.Prelude.{List, [], arith, ok, refl, ℕ, ◌∷◌, ◌≡◌, ◌≤◌}
use rola.State.{Routes, format_of, presented}
use rola.State.Widths.{IsLawful}
use rola.Padding.{padded_level_width, padded_widths}
use rola.Padding.Level.{padded_level_width_least, padded_widths_accepted}

to_32 : padded_level_width 31 ≡ ok 32
unfolding padded_level_width
to_32 = refl

padded_level_width_least_example :
    (padded : ℕ) × (padded_level_width 31 ≡ ok padded)
    × IsLawful padded
    × (31 ≤ padded)
    × ((other : ℕ) → IsLawful other → 31 ≤ other → padded ≤ other)
padded_level_width_least_example = padded_level_width_least 31 (omega arith)

abbrev routes : Routes
routes = record { batch = 2; heads = 3; widths = 31 ∷ 5 ∷ []; device = 0 }

padded_widths_accepted_example :
    (padded : List ℕ) × (padded_widths (31 ∷ 5 ∷ []) ≡ ok padded)
    × (format_of (record routes { widths = padded }) 64 6
        ≡ ok (presented (record routes { widths = padded }) 64 6))
padded_widths_accepted_example =
    padded_widths_accepted routes 64 6 (omega arith, (omega arith, tt)) (omega arith) (omega arith)
