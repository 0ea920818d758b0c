-- ===== src/Arena/Plan.antt =====
-- `plan_exact`: what an admission leaves, on every path.
use rola.Prelude.{
  Bool, Bool-cases, List, Option, Result, arith, false, inl, inr, length, ok, raised, refl,
  runtime_error, true, value_error, ℕ, ◌+◌, ◌<◌, ◌∙◌, ◌≡◌, ◌≤◌,
}
use rola.Prelude.Methods.{Exec, ◌>>◌, modify}
use rola.Keying.{logical_atoms}
use rola.Rules.{placed}
use rola.Tensor.{zero_run, popcount}
use rola.Tensor.Laws.{length-zero_run, zero_run_outside}
use rola.Extents.{ExtentAllocator}
use rola.Extents.Take.{Taken}
use rola.Arena.{
  Arena, Backing, Bitmap, mapped_of, mapped_pages, admit_pages, publish, new_atoms, plan_union,
  plan_exact, shape_fits, cleared,
}
use rola.Arena.Table.{fill, demand, length-demand, index_copy-eq-fill, length-fill, slot_count-fill}
use rola.Arena.Invariant.{Backs, IsValid}
use rola.Arena.Reserve.{Reserved, refused, granted, reserve_cases}
use rola.Arena.Reset.{reset_lem}

module _ {ℓ} {P : Type ℓ} (zeros : P) where
  pub length-new_atoms :
      (bitmap : Bitmap) (a : Arena P)
      → length (new_atoms bitmap a) ≡ demand bitmap.bits a.page_table
  unfolding new_atoms
  length-new_atoms bitmap a = length-demand bitmap.bits a.page_table

  -- The arena after an admission at `first`, the report and the event apart.
  pub record IsPlanned (bitmap : Bitmap) (a : Arena P) (first : ℕ) (a' : Arena P) : Type ℓ where
    pub valid : IsValid zeros a'
    pub table : a'.page_table ≡ fill bitmap.bits a.page_table first
    pub plane : a'.value_base ≡ zero_run zeros first (demand bitmap.bits a.page_table) a.value_base
    pub start : a.allocator.next ≤ first
    pub lands :
        first ≡ placed a.allocator.next a.allocator.extent_atoms (demand bitmap.bits a.page_table)
    pub finish : a'.allocator.next ≡ first + demand bitmap.bits a.page_table
    pub same_keying : a'.keying ≡ a.keying

  -- What `plan_exact` comes to after its reset.
  pub data Planned (bitmap : Bitmap) (a : Arena P) (out : Result (Unit {0}) × Arena P)
      : Type ℓ where
    bad_shape : out ≡ (raised value_error, a) → shape_fits a bitmap ≡ false → Planned bitmap a out
    no_room :
        out ≡ (raised runtime_error, a)
        → a.allocator.capacity
          < placed a.allocator.next a.allocator.extent_atoms (demand bitmap.bits a.page_table)
            + demand bitmap.bits a.page_table
        → Planned bitmap a out
    planned :
        (first : ℕ) (a' : Arena P)
        → out ≡ (ok tt, a')
        → shape_fits a bitmap ≡ true
        → IsPlanned bitmap a first a'
        → Planned bitmap a out

  admitted : Bitmap → ℕ → Arena P → Arena P
  admitted bitmap first a =
      publish (popcount bitmap.bits) (admit_pages zeros (new_atoms bitmap a) first a)

  admitted-IsPlanned :
      (bitmap : Bitmap) (a : Arena P) (first : ℕ) (al : ExtentAllocator) (b : Backing)
      → IsValid zeros a
      → Taken a.allocator (demand bitmap.bits a.page_table) first al
      → Backs b (logical_atoms a.keying)
      → al.next ≤ logical_atoms a.keying
      → al.next ≤ mapped_of b (logical_atoms a.keying)
      → IsPlanned bitmap a first (admitted bitmap first (record a { allocator = al; backing = b }))
  unfolding admitted admit_pages publish new_atoms mapped_pages
  admitted-IsPlanned bitmap a first al b v t backs below maps = record {
    valid = record {
      sized = record {
        plane =
            rw (length-demand bits table)
              (length-zero_run zeros first wants a.value_base ∙ v.sized.plane);
        capacity = t.same_capacity ∙ v.sized.capacity;
        extent_pos = omega (arith, t.same_extent, v.sized.extent_pos);
        pool_small = v.sized.pool_small;
        backs = backs;
        rows =
            rw (index_copy-eq-fill bits table first) (length-fill bits table first ∙ v.sized.rows);
      };
      bounded = below;
      mapped = maps;
      owned_once = λ s.
          rw (index_copy-eq-fill bits table first)
            (ground (arith, slot_count-fill bits table first s, v.owned_once s));
      pool_off = v.pool_off;
      pool_zero = λ s used. rw (length-demand bits table) (
          zero_run_outside zeros first wants a.value_base s (ground (arith, v.owned_once s))
          ∙ v.pool_zero s used);
    };
    table = index_copy-eq-fill bitmap.bits a.page_table first;
    plane = rw (length-demand bits table);
    start = t.start;
    lands = t.lands;
    finish = t.finish;
    same_keying = refl;
  }
    where
      bits : List Bool
      bits = bitmap.bits

      table : List (Option ℕ)
      table = a.page_table

      wants : ℕ
      wants = demand bitmap.bits a.page_table

  -- `plan_exact` after its reset, on every path.
  pub plan_union_cases :
      (bitmap : Bitmap) (a : Arena P)
      → IsValid zeros a
      → Planned bitmap a (plan_union zeros bitmap a)
  unfolding plan_union admitted
  plan_union_cases bitmap a v = elim (Bool-cases (shape_fits a bitmap)) [
    | inl fits ↦
        rw (fits, length-new_atoms bitmap a)
          (from_run fits
            (reserve_cases a (demand bitmap.bits a.page_table) admit v.sized v.bounded))
    | inr bad ↦ bad_shape (rw bad) bad
  ]
    where
      admit : ℕ → Exec (Arena P) (Unit {0})
      admit first =
          modify (admit_pages zeros (new_atoms bitmap a) first)
          >> modify (publish (popcount bitmap.bits))

      from_run :
          {out : Result (Unit {0}) × Arena P}
          → shape_fits a bitmap ≡ true
          → Reserved a (demand bitmap.bits a.page_table) admit out
          → Planned bitmap a out
      from_run fits (refused e room wanted) = no_room e room
      from_run fits (granted first al b e t backs below maps) =
          planned first (admitted bitmap first (record a { allocator = al; backing = b })) e fits
            (admitted-IsPlanned bitmap a first al b v t backs below maps)

  plan_union-IsValid :
      (bitmap : Bitmap) (a : Arena P)
      → IsValid zeros a
      → IsValid zeros (plan_union zeros bitmap a).1
  plan_union-IsValid bitmap a v = after (plan_union_cases bitmap a v)
    where
      after : {out : Result (Unit {0}) × Arena P} → Planned bitmap a out → IsValid zeros out.1
      after (bad_shape e bad) = rw e v
      after (no_room e room) = rw e v
      after (planned first a' e fits p) = rw e p.valid

  -- An admission leaves a valid arena, whose driver thus serves its plane, valid, fresh or
  -- continued, granted or refused: no slot is owned twice, by atoms or by the pool, every slot that
  -- is named is below the cursor and physically mapped, and the pool's unspent slots hold zeros.
  pub plan_exact-IsValid :
      (bitmap : Bitmap) (fresh : Bool) (a : Arena P)
      → IsValid zeros a
      → IsValid zeros (plan_exact zeros bitmap fresh a).1
  unfolding plan_exact
  plan_exact-IsValid bitmap true a v =
      let (a', e, w) = reset_lem zeros a v in rw e (plan_union-IsValid bitmap a' w.valid)
  plan_exact-IsValid bitmap false a v = plan_union-IsValid bitmap a v

  -- An admission keeps the keying, granted or refused.
  plan_union-keying :
      (bitmap : Bitmap) (a : Arena P)
      → IsValid zeros a
      → (plan_union zeros bitmap a).1.keying ≡ a.keying
  plan_union-keying bitmap a v = after (plan_union_cases bitmap a v)
    where
      after : {out : Result (Unit {0}) × Arena P} → Planned bitmap a out → out.1.keying ≡ a.keying
      after (bad_shape e bad) = rw e refl
      after (no_room e room) = rw e refl
      after (planned first a' e fits p) = rw e p.same_keying

  pub plan_exact-keying :
      (bitmap : Bitmap) (fresh : Bool) (a : Arena P)
      → IsValid zeros a
      → (plan_exact zeros bitmap fresh a).1.keying ≡ a.keying
  unfolding plan_exact cleared
  plan_exact-keying bitmap true a v =
      let (a', e, w) = reset_lem zeros a v in
      rw e (plan_union-keying bitmap a' w.valid ∙ w.same_keying)
  plan_exact-keying bitmap false a v = plan_union-keying bitmap a v
