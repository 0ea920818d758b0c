-- ===== src/Routing/Packed.antt =====
-- `ResolvedRouting` of rola/routing/types.py: the column layout of the packed router.
use rola.Prelude.{
  Bool, List, Result, [], false, get_or, if◌then◌else◌, length, ltb, map, ok, raised, refuse_if,
  suc, true, type_error, value_error, ℕ, ◌++◌, ◌+◌, ◌==◌, ◌>>=◌, ◌>>◌, ◌||◌, ◌∷◌,
}
use rola.Tensor.{arange}
use rola.Padding.{validate_routing_shape}
use rola.Routing.{LevelRouting, width_of}

-- The test of the levels' types.
unfoldable pub check_kinds : List LevelRouting → Result (Unit {0})
check_kinds [] = ok tt
check_kinds (LevelRouting.foreign w ∷ levels) = raised type_error
check_kinds (level ∷ levels) = check_kinds levels

-- `any(branch < 2 for branch in branches)`
unfoldable pub any_narrow : List ℕ → Bool
any_narrow [] = false
any_narrow (b ∷ branches) = ltb b 2 || any_narrow branches

unfoldable pub branches : List LevelRouting → List ℕ
unfolding width_of
branches levels = map width_of levels

-- `ResolvedRouting`
unfoldable pub resolved_routing : List LevelRouting → Result (List LevelRouting)
unfolding check_kinds validate_routing_shape any_narrow branches
resolved_routing levels = do
  refuse_if (length levels == 0) value_error
  check_kinds levels
  shape ← validate_routing_shape (branches levels)
  refuse_if (any_narrow (branches levels)) value_error
  ok levels

unfoldable pub is_tied : LevelRouting → Bool
is_tied (LevelRouting.tied w op) = true
is_tied level = false

-- `untied_levels` and `shared_solve_levels`, counted from `i`
unfoldable pub untied_from : ℕ → List LevelRouting → List ℕ
unfolding is_tied
untied_from i [] = []
untied_from i (level ∷ levels) =
    let rest = untied_from (suc i) levels in if is_tied level then rest else i ∷ rest

unfoldable pub shared_from : ℕ → List LevelRouting → List ℕ
unfolding is_tied
shared_from i [] = []
shared_from i (level ∷ levels) =
    let rest = shared_from (suc i) levels in if is_tied level then i ∷ rest else rest

unfoldable pub untied_levels : List LevelRouting → List ℕ
unfolding untied_from
untied_levels levels = untied_from 0 levels

unfoldable pub packed_slot_count : List LevelRouting → ℕ
unfolding untied_levels
packed_slot_count levels = length levels + length (untied_levels levels)

-- `packed_read_slot_lookup`: an untied level has the next of the slots from `slot` on, and any
-- other its own.
unfoldable pub read_slots_from : ℕ → ℕ → List LevelRouting → List ℕ
unfolding is_tied
read_slots_from i slot [] = []
read_slots_from i slot (level ∷ levels) =
    (if is_tied level then i else slot)
    ∷ read_slots_from (suc i) (if is_tied level then slot else suc slot) levels

unfoldable pub packed_read_slot_lookup : List LevelRouting → List ℕ
unfolding read_slots_from
packed_read_slot_lookup levels = read_slots_from 0 (length levels) levels

unfoldable pub packed_slot_level : List LevelRouting → List ℕ
unfolding untied_levels arange
packed_slot_level levels = arange 0 (length levels) ++ untied_levels levels

-- A slot's level is one of the levels, so that the index is in range.
unfoldable pub packed_slot_widths : List LevelRouting → List ℕ
unfolding packed_slot_level branches
packed_slot_widths levels = map (λ l. get_or (branches levels) l 0) (packed_slot_level levels)

-- The loop that appends `offsets[-1] + width`.
unfoldable pub offsets_from : ℕ → List ℕ → List ℕ
offsets_from offset [] = offset ∷ []
offsets_from offset (w ∷ widths) = offset ∷ offsets_from (offset + w) widths

unfoldable pub packed_slot_offsets : List LevelRouting → List ℕ
unfolding offsets_from packed_slot_widths
packed_slot_offsets levels = offsets_from 0 (packed_slot_widths levels)

-- `offsets[-1]`, of offsets that begin with 0
unfoldable pub last : List ℕ → ℕ
last [] = 0
last (x ∷ []) = x
last (x ∷ y ∷ xs) = last (y ∷ xs)

unfoldable pub packed_router_width : List LevelRouting → ℕ
unfolding last packed_slot_offsets
packed_router_width levels = last (packed_slot_offsets levels)

-- `packed_slot_slice`, as start and stop
unfoldable pub packed_slot_slice : List LevelRouting → ℕ → Result (ℕ × ℕ)
unfolding packed_slot_count packed_slot_offsets
packed_slot_slice levels slot =
    if ltb slot (packed_slot_count levels)
    then ok (
      get_or (packed_slot_offsets levels) slot 0,
      get_or (packed_slot_offsets levels) (suc slot) 0,
    )
    else raised value_error

-- The runs so far, the last of them in front: a span that abuts it is merged into it.
unfoldable pub merge_span : ℕ × ℕ → List (ℕ × ℕ) → List (ℕ × ℕ)
merge_span span [] = span ∷ []
merge_span span (run ∷ runs) = if run.1 == span.0 then (run.0, span.1) ∷ runs else span ∷ run ∷ runs

-- The loop of `packed_column_runs` over the slots.
unfoldable pub runs_from : List LevelRouting → List ℕ → List (ℕ × ℕ) → Result (List (ℕ × ℕ))
unfolding packed_slot_slice merge_span
runs_from levels [] runs = ok runs
runs_from levels (slot ∷ slots) runs = do
  span ← packed_slot_slice levels slot
  runs_from levels slots (merge_span span runs)

-- In the order in which the code appends them.
unfoldable pub in_order : List (ℕ × ℕ) → List (ℕ × ℕ) → List (ℕ × ℕ)
in_order [] done = done
in_order (run ∷ runs) done = in_order runs (run ∷ done)

-- `packed_column_runs`
unfoldable pub packed_column_runs : List LevelRouting → List ℕ → Result (List (ℕ × ℕ))
unfolding runs_from in_order
packed_column_runs levels slots = do runs ← runs_from levels slots []; ok (in_order runs [])

unfoldable pub level_offsets : List LevelRouting → List ℕ
unfolding offsets_from branches
level_offsets levels = offsets_from 0 (branches levels)

unfoldable pub packed_logit_width : List LevelRouting → ℕ
unfolding last level_offsets
packed_logit_width levels = last (level_offsets levels)
