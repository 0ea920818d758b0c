-- ===== src/Arena/Reset.antt =====
-- `_reserve_pool` and `reset`: the arena starts over, with its pool's slots taken anew.
use rola.Prelude.{
  Bool-cases, Result, ap, arith, inl, inr, length, length-replicate, none, ok, refl, replicate, ℕ,
  ◌*◌, ◌+◌, ◌==◌, ◌∙◌, ◌≡◌, ◌≤◌,
}
use rola.Prelude.Methods.{Exec, modify}
use rola.Keying.{logical_atoms}
use rola.Rules.{placed}
use native.Mathlib.Nat.{mul-le-mul_left}
use rola.Rules.Placement.{placed_zero}
use rola.Extents
use rola.Tensor.Laws.{hits, length-zero_run, zero_run_inside}
use rola.Arena.{Arena, mapped_pages, fill_pool, pool_rows, reserve_pool, cleared, reset}
use rola.Arena.Table.{slot_count, slot_count-absent}
use rola.Arena.Pool.{pool_count, pool_count-pool_rows}
use rola.Arena.Invariant.{IsSized, IsValid}
use rola.Arena.Reserve.{Reserved, refused, granted, reserve_cases}

module _ {ℓ} {P : Type ℓ} (zeros : P) where
  -- An arena with nothing in it, as the constructor and `reset` leave it for `_reserve_pool`.
  pub record IsBlank (a : Arena P) : Type ℓ where
    pub sized : IsSized a
    pub start : a.allocator.next ≡ 0
    pub no_slots : (s : ℕ) → slot_count s a.page_table ≡ 0
    pub pool_off : a.pool_capacity ≡ 0 → (s : ℕ) → pool_count s a.pool_slots a.pool_cursor ≡ 0

  fill_pool-IsValid :
      (a : Arena P) (first : ℕ)
      → IsSized a
      → a.allocator.next ≡ first + a.keying.bh * a.pool_capacity
      → a.allocator.next ≤ logical_atoms a.keying
      → a.allocator.next ≤ mapped_pages a
      → ((s : ℕ) → slot_count s a.page_table ≡ 0)
      → ¬ (a.pool_capacity ≡ 0)
      → IsValid zeros (fill_pool zeros first a)
  unfolding fill_pool mapped_pages
  fill_pool-IsValid a first v next le maps none_used some_pool = record {
    sized = record {
      plane = length-zero_run zeros first (a.keying.bh * a.pool_capacity) a.value_base ∙ v.plane;
      capacity = v.capacity;
      extent_pos = v.extent_pos;
      pool_small = v.pool_small;
      backs = v.backs;
      rows = v.rows;
    };
    bounded = le;
    mapped = maps;
    owned_once = λ s. ground (arith, none_used s, pool s);
    pool_off = λ off. absurd (some_pool off);
    pool_zero = λ s used.
        zero_run_inside zeros first (a.keying.bh * a.pool_capacity) a.value_base s
          (ground (arith, pool s, v.plane)) (ground (arith, pool s));
  }
    where
      pool :
          (s : ℕ)
          → pool_count s (pool_rows first a.pool_capacity a.keying.bh) (replicate a.keying.bh 0)
            ≡ hits first (a.keying.bh * a.pool_capacity) s
      pool s = pool_count-pool_rows s first a.pool_capacity a.keying.bh

  -- A blank arena with no pool is valid as it is.
  blank-IsValid : (a : Arena P) → IsBlank a → a.pool_capacity ≡ 0 → IsValid zeros a
  blank-IsValid a v off = record {
    sized = v.sized;
    bounded = omega (arith, v.start);
    mapped = omega (arith, v.start);
    owned_once = λ s. omega (arith, v.no_slots s, v.pool_off off s);
    pool_off = v.pool_off;
    pool_zero = λ s used. absurd (omega (arith, v.pool_off off s));
  }

  pool-le : (a : Arena P) → IsSized a → a.keying.bh * a.pool_capacity ≤ logical_atoms a.keying
  unfolding logical_atoms
  pool-le a v = mul-le-mul_left a.keying.bh v.pool_small

  starts_at_zero :
      (a : Arena P) (n : ℕ) → IsBlank a → placed a.allocator.next a.allocator.extent_atoms n ≡ 0
  starts_at_zero a n v =
      ap (λ k. placed k a.allocator.extent_atoms n) v.start
      ∙ placed_zero a.allocator.extent_atoms n v.sized.extent_pos

  -- What the reservation of the pool leaves: a valid arena over the same table, whose cursor has
  -- passed the pool's slots.
  pub record IsFresh (a a' : Arena P) : Type ℓ where
    pub valid : IsValid zeros a'
    pub table : a'.page_table ≡ a.page_table
    pub pooled : a.keying.bh * a.pool_capacity ≤ a'.allocator.next
    pub same_keying : a'.keying ≡ a.keying

  -- The pool is granted its slots.
  pub reserve_pool-IsValid :
      (a : Arena P)
      → IsBlank a
      → (a' : Arena P) × (reserve_pool zeros a ≡ (ok tt, a')) × IsFresh a a'
  unfolding reserve_pool mapped_pages
  reserve_pool-IsValid a v = elim (Bool-cases (a.pool_capacity == 0)) [
    | inl off ↦ (
      a,
      rw off,
      record {
        valid = blank-IsValid a v (ground arith);
        table = refl;
        pooled = ground arith;
        same_keying = refl;
      },
    )
    | inr on ↦
        rw on
          (from_run (ground arith) (reserve_cases a total fill v.sized (omega (arith, v.start))))
  ]
    where
      total : ℕ
      total = a.keying.bh * a.pool_capacity

      fill : ℕ → Exec (Arena P) (Unit {0})
      fill first = modify (fill_pool zeros first)

      from_run :
          {out : Result (Unit {0}) × Arena P}
          → ¬ (a.pool_capacity ≡ 0)
          → Reserved a total fill out
          → (a' : Arena P) × (out ≡ (ok tt, a')) × IsFresh a a'
      from_run some_pool (refused e room wanted) =
          absurd (omega (arith, starts_at_zero a total v, pool-le a v.sized, v.sized.capacity))
      from_run some_pool (granted first al b e t backs below maps) = (
        fill_pool zeros first taken,
        e,
        record {
          valid = fill_pool-IsValid taken first sized t.finish below maps v.no_slots some_pool;
          table = refl;
          pooled = omega (arith, t.finish);
          same_keying = refl;
        },
      )
        where
          taken : Arena P
          taken = record a { allocator = al; backing = b }

          sized : IsSized taken
          sized = record {
            plane = v.sized.plane;
            capacity = t.same_capacity ∙ v.sized.capacity;
            extent_pos = omega (arith, t.same_extent, v.sized.extent_pos);
            pool_small = v.sized.pool_small;
            backs = backs;
            rows = v.sized.rows;
          }

  cleared-IsBlank : (a : Arena P) → IsValid zeros a → IsBlank (cleared a)
  unfolding cleared Extents.reset
  cleared-IsBlank a v = record {
    sized = record {
      plane = v.sized.plane;
      capacity = v.sized.capacity;
      extent_pos = v.sized.extent_pos;
      pool_small = v.sized.pool_small;
      backs = v.sized.backs;
      rows = length-replicate (length a.page_table) none ∙ v.sized.rows;
    };
    start = refl;
    no_slots = λ s. slot_count-absent (length a.page_table) s;
    pool_off = v.pool_off;
  }

  -- `reset` never raises on a valid arena: it leaves it valid, over the cleared table, its cursor past
  -- the slots of its pool.
  pub reset_lem :
      (a : Arena P)
      → IsValid zeros a
      → (a' : Arena P) × (reset zeros a ≡ (ok tt, a')) × IsFresh (cleared a) a'
  unfolding reset cleared
  reset_lem a v = reserve_pool-IsValid (cleared a) (cleared-IsBlank a v)

  -- A reset keeps the arena valid, and its keying.
  pub reset_keeps :
      (a : Arena P)
      → IsValid zeros a
      → (a' : Arena P) × (reset zeros a ≡ (ok tt, a')) × IsValid zeros a' × (a'.keying ≡ a.keying)
  unfolding cleared
  reset_keeps a v = let (a', e, w) = reset_lem a v in (a', e, w.valid, w.same_keying)
