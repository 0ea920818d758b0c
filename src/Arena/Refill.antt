-- ===== src/Arena/Refill.antt =====
-- `refill_pool`: the spent positions of the pool take fresh slots.
use rola.Prelude.{
  Bool-cases, Result, arith, get_elem?, inl, inr, length, refl, replicate, some, sum, ℕ, ◌+◌, ◌<◌,
  ◌==◌, ◌||◌, ◌∙◌, ◌≡◌, ◌≤◌,
}
use rola.Prelude.Methods.{Exec, ◌>>◌, modify, give}
use native.Mathlib.Decide.{dec_lt}
use rola.Tensor.{zero_run}
use rola.Keying.{logical_atoms}
use rola.Extents.{ExtentAllocator}
use rola.Extents.Take.{Taken}
use rola.Tensor.Laws.{hits, length-zero_run, zero_run_inside, zero_run_outside}
use rola.Arena.{Arena, Backing, mapped_of, mapped_pages, refilled, refill_rows, refill_pool}
use rola.Arena.Pool.{pool_count, pool_count-refill_rows}
use rola.Arena.Invariant.{Backs, IsValid}
use rola.Arena.Reserve.{Reserved, refused, granted, reserve_cases}

module _ {ℓ} {P : Type ℓ} (zeros : P) where
  refilled-IsValid :
      (a : Arena P) (first : ℕ) (al : ExtentAllocator) (b : Backing)
      → IsValid zeros a
      → ¬ (a.pool_capacity ≡ 0)
      → Taken a.allocator (sum a.pool_cursor) first al
      → Backs b (logical_atoms a.keying)
      → al.next ≤ logical_atoms a.keying
      → al.next ≤ mapped_of b (logical_atoms a.keying)
      → IsValid zeros (refilled zeros first (record a { allocator = al; backing = b }))
  unfolding refilled mapped_pages
  refilled-IsValid a first al b v some_pool t backs below maps = record {
    sized = record {
      plane = length-zero_run zeros first (sum a.pool_cursor) a.value_base ∙ v.sized.plane;
      capacity = t.same_capacity ∙ v.sized.capacity;
      extent_pos = omega (arith, t.same_extent, v.sized.extent_pos);
      pool_small = v.sized.pool_small;
      backs = backs;
      rows = v.sized.rows;
    };
    bounded = below;
    mapped = maps;
    owned_once = λ s. ground (arith, v.owned_once s, counts s, t.start, t.finish);
    pool_off = λ off. absurd (some_pool off);
    pool_zero = zero_at;
  }
    where
      counts :
          (s : ℕ)
          → pool_count s
              (refill_rows first a.pool_cursor a.pool_slots)
              (replicate (length a.pool_cursor) 0)
            ≤ pool_count s a.pool_slots a.pool_cursor + hits first (sum a.pool_cursor) s
      counts s = pool_count-refill_rows s first a.pool_cursor a.pool_slots

      zero_at :
          (s : ℕ)
          → 0
            < pool_count s
                (refill_rows first a.pool_cursor a.pool_slots)
                (replicate (length a.pool_cursor) 0)
          → get_elem? (zero_run zeros first (sum a.pool_cursor) a.value_base) s ≡ some zeros
      zero_at s used = elim (dec_lt 0 (hits first (sum a.pool_cursor) s)) [
        | yes hit ↦
            zero_run_inside zeros first (sum a.pool_cursor) a.value_base s
              (ground (arith, t.finish, below, v.sized.plane)) (ground arith)
        | no miss ↦
            zero_run_outside zeros first (sum a.pool_cursor) a.value_base s (omega arith)
            ∙ v.pool_zero s (omega (arith, counts s))
      ]

  -- A refill leaves a valid arena valid, refused or granted, and moves no atom.
  pub refill_pool-IsValid :
      (a : Arena P)
      → IsValid zeros a
      → IsValid zeros (refill_pool zeros a).1 × ((refill_pool zeros a).1.page_table ≡ a.page_table)
  unfolding refill_pool refilled
  refill_pool-IsValid a v = elim (Bool-cases (a.pool_capacity == 0 || sum a.pool_cursor == 0)) [
    | inl idle ↦ rw idle (v, refl)
    | inr busy ↦
        rw busy
          (after (ground arith) (reserve_cases a (sum a.pool_cursor) refill v.sized v.bounded))
  ]
    where
      refill : ℕ → Exec (Arena P) ℕ
      refill first = modify (refilled zeros first) >> give (sum a.pool_cursor)

      after :
          {out : Result ℕ × Arena P}
          → ¬ (a.pool_capacity ≡ 0)
          → Reserved a (sum a.pool_cursor) refill out
          → IsValid zeros out.1 × (out.1.page_table ≡ a.page_table)
      after some_pool (refused e room spent) = rw e (v, refl)
      after some_pool (granted first al b e t backs below maps) =
          rw e (refilled-IsValid a first al b v some_pool t backs below maps, refl)

  -- A refill keeps the keying.
  pub refill_pool-keying :
      (a : Arena P) → IsValid zeros a → (refill_pool zeros a).1.keying ≡ a.keying
  unfolding refill_pool refilled
  refill_pool-keying a v = elim (Bool-cases (a.pool_capacity == 0 || sum a.pool_cursor == 0)) [
    | inl idle ↦ rw idle refl
    | inr busy ↦ rw busy (after (reserve_cases a (sum a.pool_cursor) refill v.sized v.bounded))
  ]
    where
      refill : ℕ → Exec (Arena P) ℕ
      refill first = modify (refilled zeros first) >> give (sum a.pool_cursor)

      after :
          {out : Result ℕ × Arena P}
          → Reserved a (sum a.pool_cursor) refill out
          → out.1.keying ≡ a.keying
      after (refused e room spent) = rw e refl
      after (granted first al b e t backs below maps) = rw e refl
