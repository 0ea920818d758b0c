-- ===== src/Arena.antt =====
-- rola/ops/paging.py `PageArena`. The tensors of an arena are lists: the page
-- table and the pool map are flat, atom by atom, with `none` for `_ABSENT_PAGE`; a page of the
-- plane is an element of a type `P`, read and written whole. A CUDA event is whether one is
-- recorded. Slot numbers stay below the arena's capacity, so their int32 never wraps.
pub mod Table
pub mod Pool
pub mod Invariant
pub mod Reserve
pub mod Reset
pub mod Plan
pub mod Residency
pub mod Fresh
pub mod Starved
pub mod Refusal
pub mod Refill
pub mod View
pub mod Reachable
pub mod Create
pub mod Created
mod Tests
mod LifeTests
use rola.Prelude.{
  Bool, List, Option, Result, [], drop, false, if◌then◌else◌, length, max, none, not, ok, raised,
  refuse_if, replicate, some, suc, sum, take, true, value_error, zero, ℕ, ◌&&◌, ◌*◌, ◌++◌, ◌+◌,
  ◌==◌, ◌||◌, ◌∷◌,
}
use rola.Prelude.Methods.{Exec, ◌>>=◌, ◌>>◌, give, lift, modify, asks}
use rola.Tensor.{arange, nonzero_from, popcount, index_copy, zero_run}
use rola.Extents
use rola.Extents.{ExtentAllocator, extent_allocator}
use rola.Keying.{
  AtomKeying, atom_keying, atoms_per_bh, logical_atoms, atoms_per_owner, mma_k_quantum,
}
use rola.Vmm
use rola.Vmm.{VmmOwner}

-- The two backings: one dense tensor, or a reserved plane and its owner.
pub data Backing : Type 0 where
  dense : Backing
  vmm : VmmOwner → Backing

pub record PagingResult : Type 0 where
  pub allocated_pages : ℕ
  pub peak_pages : ℕ
  pub realized_owners : ℕ
  pub owners_total : ℕ
  pub allocated_bytes : ℕ
  pub dense_bytes : ℕ
  pub committed_bytes : ℕ

pub record Arena {ℓ} (P : Type ℓ) : Type ℓ where
  pub keying : AtomKeying
  pub allocator : ExtentAllocator
  pub backing : Backing
  pub pool_capacity : ℕ
  pub page_table : List (Option ℕ)
  pub value_base : List P
  pub pool_slots : List (List ℕ)
  pub pool_cursor : List ℕ
  pub pool_map : List (Option ℕ)
  pub peak_pages : ℕ
  pub last_result : Option PagingResult
  pub has_stream : Bool
  pub ready : Bool

-- `[BH, atoms_per_bh]` of bool, row after row.
pub record Bitmap : Type 0 where
  pub rows : ℕ
  pub columns : ℕ
  pub bits : List Bool

-- `.view(BH, pool_capacity)` of such a range.
pub pool_rows : ℕ → ℕ → ℕ → List (List ℕ)
unfolding arange
pool_rows first width zero = []
pool_rows first width (suc rows) = arange first width ∷ pool_rows (first + width) width rows

unfoldable pub is_absent : Option ℕ → Bool
is_absent none = true
is_absent (some slot) = false

-- `atom_bitmap.reshape(-1) & (page_table.reshape(-1) < 0)`
pub wanted : List Bool → List (Option ℕ) → List Bool
unfolding is_absent
wanted [] table = []
wanted (b ∷ bs) [] = []
wanted (b ∷ bs) (t ∷ ts) = (b && is_absent t) ∷ wanted bs ts

-- `_pool_slots[bh, :count] = fresh[at:at + count]`, over the batch-heads.
pub refill_rows : ℕ → List ℕ → List (List ℕ) → List (List ℕ)
refill_rows fresh [] rows = rows
refill_rows fresh (count ∷ spent) [] = []
refill_rows fresh (count ∷ spent) (row ∷ rows) =
    (arange fresh count ++ drop count row) ∷ refill_rows (fresh + count) spent rows

bytes_of : Backing → ℕ → ℕ
bytes_of dense whole = whole
bytes_of (vmm owner) whole = owner.mapped_bytes

unfoldable pub mapped_of : Backing → ℕ → ℕ
mapped_of dense whole = whole
mapped_of (vmm owner) whole = Vmm.mapped_capacity_pages owner

module _ {ℓ} {P : Type ℓ} where
  pub allocated_bytes : Arena P → ℕ
  allocated_bytes a = a.allocator.next * mma_k_quantum * a.keying.cols * 4

  pub dense_bytes : Arena P → ℕ
  dense_bytes a = a.keying.bh * a.keying.n * a.keying.cols * 4

  pub committed_bytes : Arena P → ℕ
  unfolding bytes_of dense_bytes
  committed_bytes a = bytes_of a.backing (dense_bytes a)

  unfoldable pub mapped_pages : Arena P → ℕ
  unfolding mapped_of
  mapped_pages a = mapped_of a.backing (logical_atoms a.keying)

  -- `self._allocator.take(count)`
  took : Result (ℕ × ExtentAllocator) → Exec (Arena P) ℕ
  took (ok (first, al)) a = (ok first, record a { allocator = al })
  took (raised e) a = (raised e, a)

  pub take_slots : ℕ → Exec (Arena P) ℕ
  unfolding took
  take_slots count a = took (Extents.take a.allocator count) a

  grown : Result VmmOwner → Exec (Arena P) (Unit {0})
  grown (ok owner) a = (ok tt, record a { backing = vmm owner })
  grown (raised e) a = (raised e, a)

  grow_backing : Backing → ℕ → Exec (Arena P) (Unit {0})
  unfolding grown
  grow_backing dense pages a = (ok tt, a)
  grow_backing (vmm owner) pages a = grown (Vmm.grow owner pages) a

  -- `_commit(self._allocator.allocated)`
  pub commit : Exec (Arena P) (Unit {0})
  unfolding grow_backing
  commit a = grow_backing a.backing a.allocator.next a

  -- `atom_ids` in `plan_exact`
  pub new_atoms : Bitmap → Arena P → List ℕ
  unfolding wanted
  new_atoms bitmap a = nonzero_from 0 (wanted bitmap.bits a.page_table)

  pub record_peak : Arena P → Arena P
  record_peak a = record a { peak_pages = max a.peak_pages a.allocator.next }

  pub cleared : Arena P → Arena P
  cleared a = record a {
    page_table = replicate (length a.page_table) none;
    allocator = Extents.reset a.allocator;
    peak_pages = 0;
    ready = false;
  }

  pub shape_fits : Arena P → Bitmap → Bool
  shape_fits a bitmap = bitmap.rows == a.keying.bh && bitmap.columns == atoms_per_bh a.keying

  -- The end of `plan_exact`: the event, the high-water mark and the report.
  pub publish : ℕ → Arena P → Arena P
  unfolding record_peak allocated_bytes dense_bytes committed_bytes
  publish realized a =
      let b : Arena P = record_peak (record a { ready = a.has_stream || a.ready }) in
      record b {
        last_result = some (record {
          allocated_pages = b.allocator.next;
          peak_pages = b.peak_pages;
          realized_owners = realized;
          owners_total = atoms_per_bh b.keying;
          allocated_bytes = allocated_bytes b;
          dense_bytes = dense_bytes b;
          committed_bytes = committed_bytes b;
        });
      }

module _ {ℓ} {P : Type ℓ} (zeros : P) where
  -- The statements of `_reserve_pool` after the commitment.
  pub fill_pool : ℕ → Arena P → Arena P
  unfolding pool_rows record_peak
  fill_pool first a = record_peak (record a {
    value_base = zero_run zeros first (a.keying.bh * a.pool_capacity) a.value_base;
    pool_slots = pool_rows first a.pool_capacity a.keying.bh;
    pool_cursor = replicate a.keying.bh 0;
  })

  -- `_reserve_pool`
  pub reserve_pool : Exec (Arena P) (Unit {0})
  unfolding take_slots commit fill_pool
  reserve_pool a =
      if a.pool_capacity == 0
      then (ok tt, a)
      else (do first ← take_slots (a.keying.bh * a.pool_capacity); commit; modify (fill_pool first))
          a

  -- `reset`; the pool map is not among the fields that it writes.
  unfoldable pub reset : Exec (Arena P) (Unit {0})
  unfolding cleared reserve_pool
  reset = do modify cleared; reserve_pool

  -- `_admit_pages`
  pub admit_pages : List ℕ → ℕ → Arena P → Arena P
  admit_pages ids first a = record a {
    page_table = index_copy ids first a.page_table;
    value_base = zero_run zeros first (length ids) a.value_base;
  }

  -- `plan_exact` after the reset.
  pub plan_union : Bitmap → Exec (Arena P) (Unit {0})
  unfolding shape_fits new_atoms take_slots commit admit_pages publish
  plan_union bitmap a =
      (do
        lift (refuse_if (not (shape_fits a bitmap)) value_error)
        first ← take_slots (length (new_atoms bitmap a))
        commit
        modify (admit_pages (new_atoms bitmap a) first)
        modify (publish (popcount bitmap.bits)))
        a

  -- `plan_exact`
  unfoldable pub plan_exact : Bitmap → Bool → Exec (Arena P) (Unit {0})
  unfolding reset plan_union
  plan_exact bitmap fresh = do if fresh then reset else give tt; plan_union bitmap

  pub refilled : ℕ → Arena P → Arena P
  unfolding refill_rows record_peak
  refilled first a = record_peak (record a {
    value_base = zero_run zeros first (sum a.pool_cursor) a.value_base;
    pool_slots = refill_rows first a.pool_cursor a.pool_slots;
    pool_cursor = replicate (length a.pool_cursor) 0;
  })

  -- `refill_pool`
  pub refill_pool : Exec (Arena P) ℕ
  unfolding take_slots commit refilled
  refill_pool a =
      if a.pool_capacity == 0 || sum a.pool_cursor == 0
      then (ok 0, a)
      else (do
        first ← take_slots (sum a.pool_cursor)
        commit
        modify (refilled first)
        give (sum a.pool_cursor))
          a
