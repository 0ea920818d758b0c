-- ===== src/Routing/Padded.antt =====
-- `Topology.padded`, and the decay over a topology.
use rola.Prelude.{
  All, List, [], ap, arith, length, map, ok, refl, suc, sym, ℕ, ◌<◌, ◌∙◌, ◌∷◌, ◌≡◌, ◌≤◌,
}
use mathlib.Core.Path.{subst}
use rola.Padding.{padded_level_width, padded_widths, check_branches}
use rola.Padding.Level.{padded_level_width_least}
use rola.State.Widths.{IsLawful}
use rola.Routing.{LevelRouting, Duty, width_of, activation, topology, padded_levels, padded}
use rola.Routing.Constructed.{
  IsConstructed, constructed-width, at_width-IsConstructed, at_width_self,
}

-- The same operators at other widths.
abbrev pub SameOperators : List LevelRouting → List LevelRouting → Type 0
SameOperators [] [] = Unit
SameOperators [] (m ∷ ms) = ⊥
SameOperators (l ∷ ls) [] = ⊥
SameOperators (l ∷ ls) (m ∷ ms) =
    ((duty : Duty) → activation m duty ≡ activation l duty) × SameOperators ls ms

IsLawful-256 : IsLawful 256
IsLawful-256 = record { power = (8, refl); floor = omega arith }

-- The padded width of a lawful width is that width.
pub padded_level_width-lawful : (width : ℕ) → IsLawful width → padded_level_width width ≡ ok width
padded_level_width-lawful width l =
    let (p, e, lawful, admits, least) = padded_level_width_least width (omega (arith, l.floor)) in
    e ∙ ap ok (omega (arith, admits, least width l (omega arith)))

padded_levels_total :
    (levels : List LevelRouting)
    → All IsConstructed levels
    → (ls : List LevelRouting) × (padded_levels levels ≡ ok ls)
      × All IsConstructed ls
      × SameOperators levels ls
      × (padded_widths (map width_of levels) ≡ ok (map width_of ls))
      × All IsLawful (map width_of ls)
      × (length ls ≡ length levels)
unfolding padded_levels padded_widths
padded_levels_total [] c = ([], refl, tt, tt, refl, tt, refl)
padded_levels_total (level ∷ levels) (c, cs) =
    let (pos, le) = constructed-width level c in
    let (p, e, lawful, admits, least) = padded_level_width_least (width_of level) pos in
    let (there, e', c', w, same) =
      at_width-IsConstructed level p c (omega (arith, admits)) (least 256 IsLawful-256 le) in
    let (ls, e2, cs', sames, ws, lawfuls, n) = padded_levels_total levels cs in
    (
      there ∷ ls,
      rw (e, e', e2),
      (c', cs'),
      (same, sames),
      rw (e, ws, w),
      (subst IsLawful (sym w) lawful, lawfuls),
      ap suc n,
    )

padded_levels_lawful :
    (levels : List LevelRouting)
    → All IsConstructed levels
    → All IsLawful (map width_of levels)
    → padded_levels levels ≡ ok levels
unfolding padded_levels
padded_levels_lawful [] c l = refl
padded_levels_lawful (level ∷ levels) c l = rw (
  padded_level_width-lawful (width_of level) l.0,
  at_width_self level c.0,
  padded_levels_lawful levels c.1 l.1,
)

check_branches-small :
    (levels : List LevelRouting)
    → All IsConstructed levels
    → check_branches (map width_of levels) ≡ ok tt
unfolding check_branches
check_branches-small [] c = refl
check_branches-small (level ∷ levels) c =
    ground (arith, constructed-width level c.0, check_branches-small levels c.1)

length-map_width : (levels : List LevelRouting) → length (map width_of levels) ≡ length levels
length-map_width [] = refl
length-map_width (level ∷ levels) = ap suc (length-map_width levels)

topology-bounds :
    (levels : List LevelRouting)
    → topology levels ≡ ok levels
    → (0 < length levels) × (length levels ≤ 4)
unfolding topology
topology-bounds levels h = ground (arith, length-map_width levels)

topology-accepts :
    (levels : List LevelRouting)
    → All IsConstructed levels
    → 0 < length levels
    → length levels ≤ 4
    → topology levels ≡ ok levels
unfolding topology
topology-accepts levels c pos le =
    ground (arith, length-map_width levels, check_branches-small levels c)

-- A topology of constructed levels has a padded topology: the same activation for each level and
-- duty, at the padded widths, which are lawful for a state; and padding it again changes nothing.
pub padded_total :
    (levels : List LevelRouting)
    → All IsConstructed levels
    → topology levels ≡ ok levels
    → (ls : List LevelRouting) × (padded levels ≡ ok ls)
      × SameOperators levels ls
      × (padded_widths (map width_of levels) ≡ ok (map width_of ls))
      × All IsLawful (map width_of ls)
      × (padded ls ≡ ok ls)
unfolding padded
padded_total levels c t =
    let (ls, e, cs, same, ws, lawful, n) = padded_levels_total levels c in
    let (pos, le) = topology-bounds levels t in
    let accepted = topology-accepts ls cs (omega (arith, n)) (omega (arith, n)) in
    (ls, rw e accepted, same, ws, lawful, rw (padded_levels_lawful ls cs lawful) accepted)
