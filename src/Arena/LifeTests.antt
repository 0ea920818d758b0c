-- ===== src/Arena/LifeTests.antt =====
-- The constructor, a refill and a life of an arena at concrete arguments.
use rola.Prelude.{
  [], arith, false, get_elem?, none, ok, refl, replicate, some, suc, true, zero, ℕ, ◌+◌, ◌/◌, ◌<◌,
  ◌∷◌, ◌≡◌,
}
use rola.Rules.{admission, placed}
use rola.Tensor.{arange, zero_run, nonzero_from, index_copy}
use rola.Tensor.Laws.{count}
use rola.Extents.{take, extent_allocator}
use rola.Keying.{atom_keying, atoms_per_bh, atoms_per_owner, logical_atoms}
use rola.Vmm.{
  VmmOwner, create, reserve_plane, grow, target_pages, target_bytes, virtual_bytes,
  mapped_capacity_pages,
}
use rola.Arena.{vmm, Arena, Bitmap, plan_exact, refill_pool, mapped_of, mapped_pages}
use rola.Arena.Table.{slot_count}
use rola.Arena.Pool.{pool_count}
use rola.Arena.Create.{ArenaOptions, BackingChoice, page_arena}
use rola.Arena.Created.{IsSane, IsNew, page_arena-IsValid}
use rola.Arena.Invariant.{IsValid}
use rola.Arena.Refill.{refill_pool-IsValid}
use rola.Arena.Residency.{IsExclusive}
use rola.Arena.Reachable.{Reachable, built, planned, Reachable-IsExclusive}

-- Two batch-heads of 64 leaves in pages of 16 rows of two floats, a quarter of them in the pool.
abbrev options : ArenaOptions
options = record {
  widths = 8 ∷ 8 ∷ [];
  bc = 32;
  cols = 2;
  bh = 2;
  on_cuda = true;
  probe = record { supported = true; granularity = 256; maps = λ n. true };
  extent_atoms = none;
  backing = BackingChoice.auto;
  pool_slack = record { in_range = true; ceil_of = λ n. (n + 3) / 4 };
}

abbrev owner : VmmOwner
owner = record {
  dense_limit_pages = 8;
  page_bytes = 128;
  allocation_granularity = 256;
  chunk_pages = 2;
  mapped_bytes = 256;
  maps = λ n. true;
}

abbrev new_arena : Arena ℕ
new_arena = record {
  keying = record { n = 64; cols = 2; bh = 2 };
  allocator = record { capacity = 8; extent_atoms = 2; next = 2 };
  backing = vmm owner;
  pool_capacity = 1;
  page_table = replicate 8 none;
  value_base = 0 ∷ 0 ∷ 9 ∷ 9 ∷ 9 ∷ 9 ∷ 9 ∷ 9 ∷ [];
  pool_slots = (0 ∷ []) ∷ (1 ∷ []) ∷ [];
  pool_cursor = 0 ∷ 0 ∷ [];
  pool_map = replicate 8 none;
  peak_pages = 2;
  last_result = none;
  has_stream = true;
  ready = false;
}

options-IsSane : IsSane options
options-IsSane = record {
  granule_pos = omega arith;
  served = λ n. refl;
  fraction = λ h n. omega arith;
}

made : page_arena 0 9 options ≡ ok new_arena
unfolding page_arena atom_keying atoms_per_owner atoms_per_bh logical_atoms extent_allocator create
    reserve_plane grow target_pages target_bytes virtual_bytes mapped_capacity_pages take admission
    placed arange zero_run
made = refl

page_arena-IsValid_example : IsNew 0 9 new_arena
page_arena-IsValid_example = page_arena-IsValid 0 9 options new_arena options-IsSane made

abbrev two_atoms : Bitmap
two_atoms = record {
  rows = 2;
  columns = 4;
  bits = false ∷ true ∷ false ∷ false ∷ false ∷ false ∷ true ∷ false ∷ [];
}

life : Reachable 0 9 (plan_exact 0 two_atoms false new_arena).1
life = planned two_atoms false new_arena (built options new_arena options-IsSane made)

Reachable-IsExclusive_example : IsExclusive 0 (plan_exact 0 two_atoms false new_arena).1 1 2
unfolding plan_exact atoms_per_bh logical_atoms take admission placed grow mapped_capacity_pages
    target_pages target_bytes virtual_bytes nonzero_from index_copy
Reachable-IsExclusive_example =
    Reachable-IsExclusive 0 9 (plan_exact 0 two_atoms false new_arena).1 1 2 life refl

-- The first batch-head has spent its slot.
abbrev spent_arena : Arena ℕ
spent_arena = record new_arena { pool_cursor = 1 ∷ 0 ∷ [] }

unspent_zero :
    (s : ℕ)
    → 0 < pool_count s spent_arena.pool_slots spent_arena.pool_cursor
    → get_elem? spent_arena.value_base s ≡ some 0
unfolding pool_count count
unspent_zero zero h = absurd (ground arith)
unspent_zero (suc zero) h = refl
unspent_zero (suc (suc s)) h = absurd (ground arith)

spent_arena-IsValid : IsValid 0 spent_arena
unfolding slot_count pool_count count mapped_pages mapped_of mapped_capacity_pages logical_atoms
    atoms_per_bh
spent_arena-IsValid = record {
  sized = record {
    plane = refl;
    capacity = refl;
    extent_pos = omega arith;
    pool_small = omega arith;
    backs = (
      record {
        page_pos = omega arith;
        granule_pos = omega arith;
        chunk_pos = omega arith;
        served = λ n h. refl;
      },
      refl,
    );
    rows = refl;
  };
  bounded = omega arith;
  mapped = omega arith;
  owned_once = λ s. ground arith;
  pool_off = λ h s. absurd (omega arith);
  pool_zero = unspent_zero;
}

refill_pool-IsValid_example :
    IsValid 0 (refill_pool 0 spent_arena).1
    × ((refill_pool 0 spent_arena).1.page_table ≡ spent_arena.page_table)
refill_pool-IsValid_example = refill_pool-IsValid 0 spent_arena spent_arena-IsValid
