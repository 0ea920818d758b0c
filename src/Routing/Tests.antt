-- ===== src/Routing/Tests.antt =====
-- A plan of an independent level of 20 digits and a union level of 5, and a topology of the two.
use rola.Prelude.{
  All, List, [], arith, false, map, ok, refl, some, sum, true, ℕ, ◌+◌, ◌/◌, ◌<◌, ◌↔◌, ◌∷◌, ◌≡◌,
}
use rola.Tensor.{arange}
use rola.Padding.{padded_widths}
use rola.State.Widths.{IsLawful}
use rola.Routing.{Alpha, Tag, LevelRouting, width_of, level_routing, topology, padded}
use rola.Routing.Decay.{Dial, leaf_mass_decay, validate_against}
use rola.Routing.Constructed.{IsConstructed}
use rola.Routing.Padded.{SameOperators, padded_total}
use rola.Routing.Clock.{AreDials, decay_accepted_iff}
use rola.Routing.Packed.{
  branches, packed_slot_count, packed_router_width, packed_column_runs, packed_logit_width,
  resolved_routing,
}
use rola.Routing.Runs.{columns, Separated}
use rola.Routing.Columns.{slot_columns, packed_column_runs_lem}
use rola.Routing.Sides.{packed_sides}
use rola.Routing.Factors.{Entry, RouteFactors, route_factors}
use rola.Routing.Bundle.{IsBundle, route_factors_iff}
use rola.Routing.Descriptor.{Dtype, TensorFacts, support_side_flags, route_descriptor}
use rola.Routing.Metadata.{sparse_width}
use rola.Routing.Canonical.{IsCanonical, values_facts, words_facts}
use rola.Routing.Accepted.{route_descriptor_iff}
use rola.Routing.Plan.{plan_descriptor, plan_descriptor_accepted}

abbrev plan : List LevelRouting
plan =
    LevelRouting.independent 20 Tag.softmax (Tag.entmax Alpha.three_halves)
    ∷ LevelRouting.union 5 Alpha.two
    ∷ []

plan-IsConstructed : All IsConstructed plan
unfolding level_routing
plan-IsConstructed = (refl, (refl, tt))

plan-topology : topology plan ≡ ok plan
unfolding topology
plan-topology = refl

padded_total_example :
    (ls : List LevelRouting) × (padded plan ≡ ok ls)
    × SameOperators plan ls
    × (padded_widths (map width_of plan) ≡ ok (map width_of ls))
    × All IsLawful (map width_of ls)
    × (padded ls ≡ ok ls)
padded_total_example = padded_total plan plan-IsConstructed plan-topology

abbrev dial : ℕ → Dial
dial width =
    Dial.tensor (record { shape = 8 ∷ width ∷ []; any_below_zero = false; any_from_one = false })

abbrev dials : List Dial
dials = dial 20 ∷ dial 5 ∷ []

decay_accepted_iff_example :
    ((leaf_mass_decay dials ≡ ok dials) × (validate_against dials plan ≡ ok tt))
    ↔ ((0 < 2) × ((heads : ℕ) × AreDials heads (map width_of plan) dials))
decay_accepted_iff_example = decay_accepted_iff dials plan plan-IsConstructed

-- The write slot 1 and the two read slots, of which the last two abut the first.
abbrev slots : List ℕ
slots = 3 ∷ 1 ∷ 2 ∷ []

slots_known : All (λ s. s < packed_slot_count plan) slots
unfolding packed_slot_count
slots_known = (omega arith, (omega arith, (omega arith, tt)))

packed_column_runs_lem_example :
    (runs : List (ℕ × ℕ)) × (packed_column_runs plan slots ≡ ok runs)
    × (columns runs ≡ slot_columns plan slots)
    × Separated runs
packed_column_runs_lem_example = packed_column_runs_lem plan slots slots_known

merged : packed_column_runs plan slots ≡ ok ((45, 50) ∷ (20, 45) ∷ [])
unfolding packed_column_runs arange
merged = refl

packed_sides_example :
    (packed_column_runs plan (arange 0 2) ≡ ok ((0, packed_logit_width plan) ∷ []))
    × (packed_column_runs plan (arange 0 (packed_slot_count plan))
        ≡ ok ((0, packed_router_width plan) ∷ []))
packed_sides_example = packed_sides plan (omega arith)

-- Seventy tokens of two batch-heads, on device 0.
abbrev reads : TensorFacts
reads = values_facts 2 3 25 0

abbrev words : List ℕ → TensorFacts
words flags = words_facts 2 3 (sparse_width (branches plan) flags) 0

plan_resolved : resolved_routing plan ≡ ok plan
unfolding resolved_routing
plan_resolved = refl

reads_fit : reads ≡ values_facts 2 ((70 + 31) / 32) (sum (branches plan)) 0
unfolding branches
reads_fit = refl

plan_descriptor_accepted_example :
    (flags : List ℕ) × (support_side_flags plan ≡ ok flags)
    × (route_descriptor (plan_descriptor plan flags reads reads (words flags) 0 70) ≡ ok tt)
plan_descriptor_accepted_example =
    plan_descriptor_accepted plan reads words 2 0 0 70 plan-IsConstructed plan_resolved reads_fit
      (λ flags. refl)

route_descriptor_iff_example :
    (route_descriptor (plan_descriptor plan (2 ∷ 3 ∷ []) reads reads (words (2 ∷ 3 ∷ [])) 0 70)
      ≡ ok tt)
    ↔ IsCanonical (plan_descriptor plan (2 ∷ 3 ∷ []) reads reads (words (2 ∷ 3 ∷ [])) 0 70)
route_descriptor_iff_example =
    route_descriptor_iff (plan_descriptor plan (2 ∷ 3 ∷ []) reads reads (words (2 ∷ 3 ∷ [])) 0 70)

-- Two tokens of three heads over the plan, with a gain and no mass.
abbrev level_tensor : ℕ → Entry
level_tensor width = Entry.tensor (record {
  shape = 1 ∷ 2 ∷ 3 ∷ width ∷ [];
  dtype = Dtype.bfloat16;
  contiguous = true;
  device = 0;
})

abbrev bundle : RouteFactors
bundle = record {
  topology = some plan;
  read = level_tensor 20 ∷ level_tensor 5 ∷ [];
  write = level_tensor 20 ∷ level_tensor 5 ∷ [];
  g_write =
      Entry.tensor
        (record { shape = 1 ∷ 2 ∷ 3 ∷ []; dtype = Dtype.bfloat16; contiguous = true; device = 0 });
  read_mass = Entry.missing;
}

route_factors_iff_example : (route_factors bundle ≡ ok bundle) ↔ IsBundle (map width_of plan) bundle
route_factors_iff_example =
    route_factors_iff bundle
      (LevelRouting.independent 20 Tag.softmax (Tag.entmax Alpha.three_halves))
      (LevelRouting.union 5 Alpha.two ∷ []) refl

bundle_accepted : route_factors bundle ≡ ok bundle
unfolding route_factors
bundle_accepted = refl
