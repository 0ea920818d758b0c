-- ===== src/State/Tests.antt =====
-- A state over two atoms: opened, called twice, cloned and stepped.

use mathlib.Core.Path.{subst}
use rola.Prelude.{
  [], ap, arith, false, get_or, none, ok, raised, refl, some, true, value_error, ℕ, ◌%◌, ◌<◌, ◌==◌,
  ◌↔◌, ◌∷◌, ◌≡◌,
}
use rola.Rules.{admission, placed}
use rola.Tensor.{arange, zero_run, nonzero_from, index_copy, popcount}
use rola.Extents.{take, extent_allocator, reset as extents_reset}
use rola.Keying.{atom_keying, atoms_per_bh, atoms_per_owner, logical_atoms}
use rola.Arena.{dense, Arena, plan_exact, mapped_pages}
use rola.Arena.Create.{Slack, page_arena}
use rola.State.{
  StateFormat, Routes, state_format, check_widths, capacity, format_of, presented, check,
}
use rola.State.Carried.{
  DecodeEntry, decode_entry, Driver, CarriedArena, RolaState, fresh_arena, arena_in, rola_state,
  unbound_state, bound, bind, present_or, carries, state_keying, written_atoms, reshaped,
  write_bitmap, bind_or_agree, new_arena, arena_options,
}
use rola.State.Entry.{plan_optional, settled, plan_first, enter_by, enter, kernel_entry}
use rola.Arena.View.{view, admit_view}
use rola.State.Format.{IsFormat, state_format_iff, check_iff}
use rola.State.Refines.{kernel_entry_refines}
use rola.State.Refused.{kernel_entry_disagrees}
use rola.State.Decode.{decode_entry_iff}
use rola.State.Clone.{clone}
use rola.State.Cloned.{IsCloneOf, clone-IsCloneOf}
use rola.State.Invariant.{IsSaneDriver, IsSound}
use rola.State.Reach.{Reachable, opened, called, Reachable-IsSound}

abbrev driver : Driver
driver = record {
  on_cuda = λ d. false;
  probe = λ d. record { supported = false; granularity = 1; maps = λ n. true };
}

driver-IsSane : IsSaneDriver driver
driver-IsSane d = (omega arith, λ n. refl)

abbrev no_slack : Slack
no_slack = record { in_range = true; ceil_of = λ n. 0 }

abbrev routes : Routes
routes = record { batch = 1; heads = 1; widths = 32 ∷ []; device = 0 }

abbrev format : StateFormat
format = record {
  depth = 1;
  widths = 32 ∷ [];
  order = "mixed-radix-msb-first";
  page_bits = 4;
  dv = 2;
  dtype = "fp32 as split bf16 planes";
  ids = 2;
}

abbrev empty : RolaState ℕ ℕ
empty = record {
  strategy = "mutable";
  pool_slack = no_slack;
  shape = none;
  device = none;
  paging = true;
  arena = none;
  plane = none;
  format = none;
}

-- The first atom is written, and the second read.
abbrev first_pages : Arena ℕ
first_pages = record {
  keying = record { n = 32; cols = 3; bh = 1 };
  allocator = record { capacity = 2; extent_atoms = 1; next = 1 };
  backing = dense;
  pool_capacity = 0;
  page_table = some 0 ∷ none ∷ [];
  value_base = 0 ∷ 0 ∷ [];
  pool_slots = [] ∷ [];
  pool_cursor = 0 ∷ [];
  pool_map = none ∷ none ∷ [];
  peak_pages = 1;
  last_result = some (record {
    allocated_pages = 1;
    peak_pages = 1;
    realized_owners = 1;
    owners_total = 2;
    allocated_bytes = 192;
    dense_bytes = 384;
    committed_bytes = 384;
  });
  has_stream = false;
  ready = false;
}

abbrev carried : CarriedArena ℕ
carried = record { widths = 32 ∷ []; bc = 16; pages = first_pages }

abbrev called_once : RolaState ℕ ℕ
called_once = record {
  strategy = "mutable";
  pool_slack = no_slack;
  shape = some (record { batch = 1; heads = 1; n = 32; cols = 3 });
  device = some 0;
  paging = true;
  arena = some carried;
  plane = none;
  format = some format;
}

first_call :
    kernel_entry 0 9 driver routes (some (1 ∷ 2 ∷ [])) 2 true 16 empty
    ≡ (ok (fresh_arena carried), called_once)
unfolding kernel_entry format_of presented state_format check_widths capacity bind_or_agree bound
    bind write_bitmap state_keying present_or reshaped written_atoms enter enter_by new_arena
    arena_options page_arena atom_keying atoms_per_owner atoms_per_bh logical_atoms extent_allocator
    plan_first plan_optional settled plan_exact take admission placed arange zero_run nonzero_from
    index_copy popcount extents_reset
first_call = refl

made : rola_state {P = ℕ} {Q = ℕ} "mutable" no_slack ≡ ok empty
unfolding rola_state unbound_state
made = refl

life :
    Reachable {Q = ℕ} 0 9 driver
      (kernel_entry 0 9 driver routes (some (1 ∷ 2 ∷ [])) 2 true 16 empty).1
life =
    called routes (some (1 ∷ 2 ∷ [])) 2 true 16 empty
      (opened "mutable" no_slack empty (λ h n. omega arith) made)

Reachable-IsSound_example :
    IsSound {Q = ℕ} 0 (kernel_entry 0 9 driver routes (some (1 ∷ 2 ∷ [])) 2 true 16 empty).1
Reachable-IsSound_example =
    Reachable-IsSound 0 9 driver
      (kernel_entry 0 9 driver routes (some (1 ∷ 2 ∷ [])) 2 true 16 empty).1 driver-IsSane life

called_once-IsSound : IsSound {Q = ℕ} 0 called_once
called_once-IsSound = subst (IsSound {Q = ℕ} 0) (ap (λ r. r.1) first_call) Reachable-IsSound_example

-- The second call writes both atoms.
abbrev both_pages : Arena ℕ
both_pages = record first_pages {
  allocator = record { capacity = 2; extent_atoms = 1; next = 2 };
  page_table = some 0 ∷ some 1 ∷ [];
  peak_pages = 2;
  last_result = some (record {
    allocated_pages = 2;
    peak_pages = 2;
    realized_owners = 2;
    owners_total = 2;
    allocated_bytes = 384;
    dense_bytes = 384;
    committed_bytes = 384;
  });
}

abbrev called_twice : RolaState ℕ ℕ
called_twice = record called_once { arena = some (record carried { pages = both_pages }) }

second_call :
    kernel_entry 0 9 driver routes (some (1 ∷ 3 ∷ [])) 2 true 16 called_once
    ≡ (ok (arena_in (record carried { pages = both_pages })), called_twice)
unfolding kernel_entry check atom_keying atoms_per_bh plan_exact take admission nonzero_from
    index_copy zero_run popcount
second_call = refl

kernel_entry_refines_example :
    (c : CarriedArena ℕ) × (called_twice.arena ≡ some c)
    × ((i : ℕ)
        → i < logical_atoms first_pages.keying
        → view c.pages i ≡ admit_view 0 (get_or (1 ∷ 3 ∷ []) i 0 % 2 == 1) (view first_pages i))
kernel_entry_refines_example =
    kernel_entry_refines 0 9 driver routes (1 ∷ 3 ∷ []) 2 true 16 called_once called_twice carried
      (arena_in (record carried { pages = both_pages })) called_once-IsSound refl second_call

-- A call of another width.
abbrev narrow : Routes
narrow = record routes { widths = 16 ∷ [] }

abbrev narrow_format : StateFormat
narrow_format = record format { widths = 16 ∷ []; ids = 1 }

narrow_presents : format_of narrow 2 1 ≡ ok narrow_format
unfolding format_of
narrow_presents = refl

differ : ¬ (format ≡ narrow_format)
differ same = absurd (omega (arith, ap (λ f. f.ids) same))

is_bound : bound called_once ≡ true
unfolding bound
is_bound = refl

kernel_entry_disagrees_example :
    kernel_entry 0 9 driver narrow none 2 true 16 called_once ≡ (raised value_error, called_once)
kernel_entry_disagrees_example =
    kernel_entry_disagrees 0 9 driver narrow none 2 true 16 called_once format narrow_format
      is_bound refl narrow_presents differ

routes_present : format_of routes 2 1 ≡ ok format
unfolding format_of
routes_present = refl

decode_entry_iff_example :
    ((entry : DecodeEntry ℕ ℕ) × (decode_entry routes called_once ≡ ok entry))
    ↔ ((carries called_once ≡ true) × (format ≡ format))
decode_entry_iff_example =
    decode_entry_iff routes called_once (record { batch = 1; heads = 1; n = 32; cols = 3 }) format
      format refl refl routes_present

copied_once : clone 0 9 driver none called_once ≡ ok called_once
unfolding clone atom_keying page_arena atoms_per_owner extent_allocator plan_exact atoms_per_bh take
    admission nonzero_from logical_atoms extents_reset mapped_pages index_copy zero_run popcount
copied_once = refl

clone-IsCloneOf_example : IsCloneOf 0 called_once called_once
clone-IsCloneOf_example =
    clone-IsCloneOf 0 9 driver none called_once called_once driver-IsSane called_once-IsSound
      copied_once

state_format_iff_example : (state_format format ≡ ok format) ↔ IsFormat format
state_format_iff_example = state_format_iff format (omega arith)

check_iff_example : (check format narrow_format ≡ ok tt) ↔ (format ≡ narrow_format)
check_iff_example = check_iff format narrow_format
