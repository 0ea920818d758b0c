-- ===== src/Vmm.antt =====
-- csrc/rola/src/paging/vmm_owner.cu: how much of a reserved plane is physically mapped. `maps` is the
-- driver: whether it creates and maps the chunk that brings a plane to so many bytes. Where it does
-- not, the growth raises with nothing more mapped.
pub mod Growth
pub mod Create
mod Tests
use rola.Prelude.{
  Bool, Result, if◌then◌else◌, leb, ltb, max, min, not, ok, raised, refuse_if, runtime_error, ℕ,
  ◌*◌, ◌+◌, ◌-◌, ◌/◌, ◌==◌, ◌>>◌, ◌||◌,
}

pub record VmmOwner : Type 0 where
  pub dense_limit_pages : ℕ
  pub page_bytes : ℕ
  pub allocation_granularity : ℕ
  pub chunk_pages : ℕ
  pub mapped_bytes : ℕ
  pub maps : ℕ → Bool

abbrev pub ceil_div : ℕ → ℕ → ℕ
ceil_div a b = (a + b - 1) / b

abbrev pub round_up : ℕ → ℕ → ℕ
round_up a b = ceil_div a b * b

unfoldable pub mapped_capacity_pages : VmmOwner → ℕ
mapped_capacity_pages o = min (o.mapped_bytes / o.page_bytes) o.dense_limit_pages

-- `target_pages` in `VmmOwner::grow`: one chunk more than is required, but at the first growth and
-- at the end of the plane.
unfoldable pub target_pages : VmmOwner → ℕ → ℕ
target_pages o required =
    let max_chunks = ceil_div o.dense_limit_pages o.chunk_pages in
    let required_chunks = ceil_div required o.chunk_pages in
    let target_chunks =
      if mapped_capacity_pages o == 0 || leb max_chunks required_chunks
      then required_chunks
      else required_chunks + 1 in
    min o.dense_limit_pages (target_chunks * o.chunk_pages)

unfoldable pub target_bytes : VmmOwner → ℕ → ℕ
target_bytes o required = round_up (target_pages o required * o.page_bytes) o.allocation_granularity

unfoldable pub virtual_bytes : VmmOwner → ℕ
virtual_bytes o = round_up (o.page_bytes * o.dense_limit_pages) o.allocation_granularity

-- `VmmOwner::grow`
unfoldable pub grow : VmmOwner → ℕ → Result VmmOwner
grow o required =
    if ltb o.dense_limit_pages required
    then raised runtime_error
    else if leb required (mapped_capacity_pages o)
    then ok o
    else if leb (target_bytes o required) o.mapped_bytes
    then ok o
    else if ltb (virtual_bytes o) (target_bytes o required)
    then raised runtime_error
    else if o.maps (target_bytes o required)
    then ok (record o { mapped_bytes = target_bytes o required })
    else raised runtime_error

-- `VmmProbe`, what the driver's round trip said of the device, and what the driver will map there.
pub record VmmProbe : Type 0 where
  pub supported : Bool
  pub granularity : ℕ
  pub maps : ℕ → Bool

-- `VmmOwner::VmmOwner` and `reserve_plane`, on positive sizes: a plane with nothing mapped.
unfoldable pub reserve_plane : (ℕ → Bool) → ℕ → ℕ → ℕ → ℕ → VmmOwner
reserve_plane maps limit page_bytes granularity target_chunk = record {
  dense_limit_pages = limit;
  page_bytes = page_bytes;
  allocation_granularity = granularity;
  chunk_pages = min limit (max 1 (target_chunk / page_bytes));
  mapped_bytes = 0;
  maps = maps;
}

-- `VmmOwner::create`; a page is `page_rows` rows of `page_cols` floats.
unfoldable pub create : VmmProbe → ℕ → ℕ → ℕ → ℕ → Result VmmOwner
unfolding reserve_plane grow
create probe limit page_rows page_cols target_chunk = do
  refuse_if (limit == 0 || page_rows == 0 || page_cols == 0) runtime_error
  refuse_if (not probe.supported) runtime_error
  refuse_if (target_chunk == 0) runtime_error
  let owner =
      reserve_plane probe.maps limit (page_rows * page_cols * 4) probe.granularity target_chunk
  grow owner (min owner.dense_limit_pages owner.chunk_pages)
