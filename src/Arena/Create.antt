-- ===== src/Arena/Create.antt =====
-- `PageArena.__init__`, and that it leaves a valid arena.
use rola.Prelude.{
  Bool, List, Option, Result, false, if◌then◌else◌, none, not, ok, prod, raised, refuse_if,
  replicate, runtime_error, some, true, value_error, zero_division_error, ℕ, ◌==◌, ◌>>=◌, ◌>>◌,
}
use rola.Vmm
use rola.Vmm.{VmmOwner, VmmProbe}
use rola.Keying.{
  AtomKeying, atom_keying, atoms_per_bh, logical_atoms, atoms_per_owner, mma_k_quantum,
}
use rola.Extents.{ExtentAllocator, extent_allocator}
use rola.Arena.{Backing, dense, vmm, Arena, reserve_pool}

-- What the `backing` argument can be.
pub data BackingChoice : Type 0 where
  auto vmm_only dense_only unknown : BackingChoice

-- `_resolve_backing`: whether the backing is the driver's.
unfoldable pub resolve_backing : BackingChoice → Bool → VmmProbe → Result Bool
resolve_backing unknown on_cuda probe = raised value_error
resolve_backing dense_only on_cuda probe = ok false
resolve_backing vmm_only false probe = raised value_error
resolve_backing auto false probe = ok false
resolve_backing vmm_only true probe = if probe.supported then ok true else raised runtime_error
resolve_backing auto true probe = if probe.supported then ok true else raised runtime_error

-- The float `pool_slack`: whether it is in [0, 1], and `ceil(pool_slack * n)`.
pub record Slack : Type 0 where
  pub in_range : Bool
  pub ceil_of : ℕ → ℕ

-- The arguments of the constructor, with what the driver says of the device.
pub record ArenaOptions : Type 0 where
  pub widths : List ℕ
  pub bc : ℕ
  pub cols : ℕ
  pub bh : ℕ
  pub on_cuda : Bool
  pub probe : VmmProbe
  pub extent_atoms : Option ℕ
  pub backing : BackingChoice
  pub pool_slack : Slack

-- `resolved_extent`, where `C_EXTENT_ATOMS` is None.
unfoldable pub resolved_extent : Option ℕ → ℕ → ℕ
resolved_extent none qpo = qpo
resolved_extent (some extent) qpo = extent

-- The plane's owner in `_allocate`, where `C_VMM_CHUNK_BYTES` is None.
unfoldable pub make_backing : Bool → ArenaOptions → ℕ → Result Backing
make_backing false opts pages = ok dense
make_backing true opts pages =
    Vmm.create opts.probe pages mma_k_quantum opts.cols opts.probe.granularity >>= λ owner.
    ok (vmm owner)

-- The object, where its constructor returns.
unfoldable pub constructed {ℓ} : {A : Type ℓ} → Result (Unit {0}) × A → Result A
constructed (ok t, a) = ok a
constructed (raised e, a) = raised e

module _ {ℓ} {P : Type ℓ} (zeros unset : P) where
  -- The arena before `_reserve_pool`; a plane that is only reserved holds `unset` pages.
  unfoldable pub blank_arena : ArenaOptions → AtomKeying → ExtentAllocator → Backing → Arena P
  blank_arena opts keying allocator backing = record {
    keying = keying;
    allocator = allocator;
    backing = backing;
    pool_capacity = opts.pool_slack.ceil_of (atoms_per_bh keying);
    page_table = replicate (logical_atoms keying) none;
    value_base =
        replicate (logical_atoms keying) (elim backing [ dense ↦ zeros | vmm owner ↦ unset ]);
    pool_slots = replicate keying.bh (replicate (opts.pool_slack.ceil_of (atoms_per_bh keying)) 0);
    pool_cursor = replicate keying.bh 0;
    pool_map = replicate (logical_atoms keying) none;
    peak_pages = 0;
    last_result = none;
    has_stream = opts.on_cuda;
    ready = false;
  }

  -- `PageArena.__init__`
  unfoldable pub page_arena : ArenaOptions → Result (Arena P)
  unfolding constructed resolved_extent resolve_backing make_backing blank_arena reserve_pool
  page_arena opts = do
    keying ← atom_keying (prod opts.widths) opts.cols opts.bh
    qpo ← atoms_per_owner opts.bc
    refuse_if (opts.bc == 0) zero_division_error
    allocator ← extent_allocator (logical_atoms keying) (resolved_extent opts.extent_atoms qpo)
    refuse_if (not opts.pool_slack.in_range) value_error
    on_driver ← resolve_backing opts.backing opts.on_cuda opts.probe
    backing ← make_backing on_driver opts (logical_atoms keying)
    constructed (reserve_pool zeros (blank_arena opts keying allocator backing))
