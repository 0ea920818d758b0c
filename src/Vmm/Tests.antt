-- ===== src/Vmm/Tests.antt =====
-- A reserved plane of eight pages, half of them mapped, that is asked for five.
use rola.Prelude.{arith, leb, ok, ◌≡◌, ◌≤◌}
use rola.Vmm.{VmmOwner, grow, mapped_capacity_pages}
use rola.Vmm.Growth.{IsValid, grow_covers}

abbrev plane : VmmOwner
plane = record {
  dense_limit_pages = 8;
  page_bytes = 64;
  allocation_granularity = 256;
  chunk_pages = 4;
  mapped_bytes = 256;
  maps = λ n. leb n 512;
}

grow_covers_example :
    (o : VmmOwner) × (grow plane 5 ≡ ok o)
    × (5 ≤ mapped_capacity_pages o)
    × (mapped_capacity_pages plane ≤ mapped_capacity_pages o)
    × IsValid o
    × (o.dense_limit_pages ≡ 8)
unfolding rola.Vmm.virtual_bytes
grow_covers_example =
    grow_covers plane 5
      (record {
        page_pos = omega arith;
        granule_pos = omega arith;
        chunk_pos = omega arith;
        served = λ n h. ground arith;
      })
      (omega arith)
