-- ===== src/Arena/Tests.antt =====
-- An arena of two batch-heads of four atoms over a plane of eight pages, half of them mapped: a slack
-- pool of one slot for each batch-head, and one resident atom.
use rola.Prelude.{
  [], arith, false, get_elem?, leb, none, ok, raised, refl, replicate, runtime_error, some, suc,
  true, zero, ℕ, ◌<◌, ◌∷◌, ◌≡◌,
}
use rola.Rules.{admission, placed}
use rola.Tensor.{arange, nonzero_from, popcount, index_copy, zero_run}
use rola.Extents.{take, reset as extents_reset}
use rola.Tensor.Laws.{count}
use rola.Keying.{logical_atoms, atoms_per_bh}
use rola.Vmm.{grow, target_pages, target_bytes, virtual_bytes, mapped_capacity_pages}
use rola.Arena.{vmm, Arena, Bitmap, plan_exact, shape_fits, mapped_pages, mapped_of}
use rola.Arena.Pool.{pool_count}
use rola.Arena.Table.{slot_count, demand}
use rola.Arena.Invariant.{IsValid}
use rola.Arena.Plan.{plan_exact-IsValid}
use rola.Arena.Residency.{IsAdmitted, plan_exact_continued}
use rola.Arena.Fresh.{IsCallScoped, plan_exact_fresh}
use rola.Arena.Refusal.{Refused, plan_exact-Refused, plan_exact_granted, plan_exact_pooled, whole}

abbrev arena : Arena ℕ
arena = record {
  keying = record { n = 64; cols = 2; bh = 2 };
  allocator = record { capacity = 8; extent_atoms = 2; next = 3 };
  backing = vmm (record {
    dense_limit_pages = 8;
    page_bytes = 64;
    allocation_granularity = 256;
    chunk_pages = 4;
    mapped_bytes = 256;
    maps = λ n. true;
  });
  pool_capacity = 1;
  page_table = none ∷ some 2 ∷ none ∷ none ∷ none ∷ none ∷ none ∷ none ∷ [];
  value_base = 0 ∷ 0 ∷ 7 ∷ 5 ∷ 5 ∷ 5 ∷ 5 ∷ 5 ∷ [];
  pool_slots = (0 ∷ []) ∷ (1 ∷ []) ∷ [];
  pool_cursor = 0 ∷ 0 ∷ [];
  pool_map = replicate 8 none;
  peak_pages = 3;
  last_result = none;
  has_stream = true;
  ready = false;
}

unspent_zero :
    (s : ℕ)
    → 0 < pool_count s arena.pool_slots arena.pool_cursor
    → get_elem? arena.value_base s ≡ some 0
unfolding pool_count count
unspent_zero zero h = refl
unspent_zero (suc zero) h = refl
unspent_zero (suc (suc s)) h = absurd (ground arith)

arena-IsValid : IsValid 0 arena
unfolding slot_count pool_count count mapped_pages mapped_of mapped_capacity_pages logical_atoms
    atoms_per_bh virtual_bytes
arena-IsValid = record {
  sized = record {
    plane = refl;
    capacity = refl;
    extent_pos = omega arith;
    pool_small = omega arith;
    backs = (
      record {
        page_pos = omega arith;
        granule_pos = omega arith;
        chunk_pos = omega arith;
        served = λ n h. refl;
      },
      refl,
    );
    rows = refl;
  };
  bounded = omega arith;
  mapped = omega arith;
  owned_once = λ s. ground arith;
  pool_off = λ h s. absurd (omega arith);
  pool_zero = unspent_zero;
}

abbrev three : Bitmap
three = record {
  rows = 2;
  columns = 4;
  bits = true ∷ true ∷ false ∷ false ∷ false ∷ true ∷ true ∷ false ∷ [];
}

abbrev five : Bitmap
five = record {
  rows = 2;
  columns = 4;
  bits = true ∷ true ∷ true ∷ true ∷ true ∷ true ∷ false ∷ false ∷ [];
}

plan_exact-IsValid_example : IsValid 0 (plan_exact 0 three true arena).1
plan_exact-IsValid_example = plan_exact-IsValid 0 three true arena arena-IsValid

plan_exact_continued_example : IsAdmitted 0 three arena (plan_exact 0 three false arena).1
unfolding plan_exact atoms_per_bh logical_atoms take admission placed grow mapped_capacity_pages
    target_pages target_bytes virtual_bytes popcount arange nonzero_from index_copy zero_run
    extents_reset
plan_exact_continued_example =
    plan_exact_continued 0 three arena (plan_exact 0 three false arena).1 arena-IsValid refl

plan_exact_fresh_example : IsCallScoped 0 three (plan_exact 0 three true arena).1
unfolding plan_exact atoms_per_bh logical_atoms take admission placed grow mapped_capacity_pages
    target_pages target_bytes virtual_bytes popcount arange nonzero_from index_copy zero_run
    extents_reset
plan_exact_fresh_example =
    plan_exact_fresh 0 three arena (plan_exact 0 three true arena).1 arena-IsValid refl

-- The arena over a driver that maps no more than is mapped.
abbrev starved : Arena ℕ
starved = record arena {
  backing = vmm (record {
    dense_limit_pages = 8;
    page_bytes = 64;
    allocation_granularity = 256;
    chunk_pages = 4;
    mapped_bytes = 256;
    maps = λ n. leb n 256;
  });
}

plan_exact-Refused_example :
    Refused 0 three starved (plan_exact 0 three false starved).1 runtime_error
unfolding plan_exact atoms_per_bh logical_atoms take admission placed grow mapped_capacity_pages
    target_pages target_bytes virtual_bytes popcount arange nonzero_from index_copy zero_run
    extents_reset
plan_exact-Refused_example =
    plan_exact-Refused 0 three starved (plan_exact 0 three false starved).1 runtime_error
      arena-IsValid refl

plan_exact_granted_example : (a : Arena ℕ) × (plan_exact 0 three false arena ≡ (ok tt, a))
unfolding shape_fits demand atoms_per_bh
plan_exact_granted_example = plan_exact_granted 0 three arena arena-IsValid refl (omega arith)

plan_exact_pooled_example : (plan_exact 0 (whole 0 arena) true arena).0 ≡ raised runtime_error
plan_exact_pooled_example = plan_exact_pooled 0 arena arena-IsValid (omega arith)
