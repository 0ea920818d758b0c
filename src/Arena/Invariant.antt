-- ===== src/Arena/Invariant.antt =====
-- What holds of an arena between calls.
use rola.Prelude.{get_elem?, if◌then◌else◌, length, ltb, some, ℕ, ◌+◌, ◌<◌, ◌≡◌, ◌≤◌}
use rola.Keying.{atoms_per_bh, logical_atoms}
use rola.Vmm.Growth
use rola.Arena.{Backing, dense, vmm, Arena, mapped_pages}
use rola.Arena.Table.{slot_count}
use rola.Arena.Pool.{pool_count}

-- The owner of a reserved plane has the arena's dense limit, and a driver that maps what it is
-- asked for up to it.
abbrev pub Backs : Backing → ℕ → Type 0
Backs dense limit = Unit
Backs (vmm owner) limit = Growth.IsValid owner × (owner.dense_limit_pages ≡ limit)

module _ {ℓ} {P : Type ℓ} where
  -- What the constructor fixes.
  pub record IsSized (a : Arena P) : Type ℓ where
    pub plane : length a.value_base ≡ logical_atoms a.keying
    pub capacity : a.allocator.capacity ≡ logical_atoms a.keying
    pub extent_pos : 0 < a.allocator.extent_atoms
    pub pool_small : a.pool_capacity ≤ atoms_per_bh a.keying
    pub backs : Backs a.backing (logical_atoms a.keying)
    pub rows : length a.page_table ≡ logical_atoms a.keying

  -- No slot has two owners, whether atoms or pool positions; each slot that is named is below the
  -- cursor, which is in the arena and physically mapped; and the pool's slots hold zeros.
  pub record IsValid (zeros : P) (a : Arena P) : Type ℓ where
    pub sized : IsSized a
    pub bounded : a.allocator.next ≤ logical_atoms a.keying
    pub mapped : a.allocator.next ≤ mapped_pages a
    pub owned_once :
        (s : ℕ)
        → slot_count s a.page_table + pool_count s a.pool_slots a.pool_cursor
          ≤ (if ltb s a.allocator.next then 1 else 0)
    pub pool_off : a.pool_capacity ≡ 0 → (s : ℕ) → pool_count s a.pool_slots a.pool_cursor ≡ 0
    pub pool_zero :
        (s : ℕ)
        → 0 < pool_count s a.pool_slots a.pool_cursor
        → get_elem? a.value_base s ≡ some zeros
