-- ===== src/Arena/Refusal.antt =====
-- `plan_exact` when it raises, and when it does not.
use rola.Prelude.{
  Bool-cases, Exception, Result, ap, arith, false, inl, inr, ok, raised, raised_injective,
  replicate, runtime_error, sym, true, value_error, ℕ, ◌%◌, ◌*◌, ◌+◌, ◌<◌, ◌∙◌, ◌≡◌, ◌≢◌, ◌≤◌,
}
use rola.Keying.{atoms_per_bh, logical_atoms}
use rola.Rules.{placed, neg_mod}
use rola.Rules.Placement.{placed_bounds, placed_next}
use rola.Prelude.Methods.{Exec, ◌>>◌, modify}
use rola.Tensor.{popcount}
use rola.Extents.{ExtentAllocator}
use rola.Extents.Take.{Taken}
use rola.Arena.{
  Arena, Bitmap, shape_fits, plan_exact, plan_union, admit_pages, new_atoms, publish, cleared,
}
use rola.Arena.Starved.{Starved, serving, reserve_raised}
use rola.Arena.Table.{demand, demand_full}
use rola.Arena.Invariant.{IsValid}
use rola.Arena.Reset.{IsFresh, reset_lem}
use rola.Arena.Plan.{Planned, bad_shape, no_room, planned, plan_union_cases, length-new_atoms}

module _ {ℓ} {P : Type ℓ} (zeros : P) where
  -- What a continued admission that raises has done: nothing, where the bitmap has another shape or
  -- the demand is past the capacity; or it has advanced the cursor alone, where the driver does not
  -- map the growth.
  pub data Refused (bitmap : Bitmap) (a a' : Arena P) (e : Exception) : Type ℓ where
    other_shape : a' ≡ a → e ≡ value_error → shape_fits a bitmap ≡ false → Refused bitmap a a' e
    past_capacity :
        a' ≡ a
        → e ≡ runtime_error
        → a.allocator.capacity
          < placed a.allocator.next a.allocator.extent_atoms (demand bitmap.bits a.page_table)
            + demand bitmap.bits a.page_table
        → Refused bitmap a a' e
    not_mapped :
        (first : ℕ) (al : ExtentAllocator)
        → a' ≡ record a { allocator = al }
        → e ≡ runtime_error
        → Taken a.allocator (demand bitmap.bits a.page_table) first al
        → Starved a.backing al.next
        → Refused bitmap a a' e

  -- A continued admission that raises, of an arena that would be valid over a driver that maps
  -- whatever is asked, has changed nothing where it is a ValueError, which is for a bitmap of
  -- another shape, and where it is a RuntimeError for a demand past the capacity. There is one more
  -- RuntimeError, for a growth that the driver does not map; then the cursor stands behind the run
  -- that was taken, and nothing else has changed.
  pub plan_exact-Refused :
      (bitmap : Bitmap) (a a' : Arena P) (e : Exception)
      → IsValid zeros (serving a)
      → plan_exact zeros bitmap false a ≡ (raised e, a')
      → Refused bitmap a a' e
  unfolding plan_exact plan_union
  plan_exact-Refused bitmap a a' e v run = elim (Bool-cases (shape_fits a bitmap)) [
    | inr bad ↦
        let out : (raised value_error, a) ≡ (raised e, a') = rw bad at run in
        other_shape (sym (ap (λ p. p.1) out))
          (sym (raised_injective Unit value_error e (ap (λ p. p.0) out))) bad
    | inl fits ↦
        elim (reserve_raised a a' (demand bitmap.bits a.page_table) admit e v.sized v.bounded
          (λ first b c x h. cc) (rw (fits, length-new_atoms zeros bitmap a) at run)) [
            | inl (same, is_runtime, room) ↦ past_capacity same is_runtime room
            | inr (first, al, moved, is_runtime, t, starved) ↦
                not_mapped first al moved is_runtime t starved
          ]
  ]
    where
      admit : ℕ → Exec (Arena P) (Unit {0})
      admit first =
          modify (admit_pages zeros (new_atoms bitmap a) first)
          >> modify (publish (popcount bitmap.bits))

  -- In a valid arena, whose driver thus serves its plane, a continued admission of the right shape
  -- returns whenever its demand leaves the padding of one extent to spare.
  pub plan_exact_granted :
      (bitmap : Bitmap) (a : Arena P)
      → IsValid zeros a
      → shape_fits a bitmap ≡ true
      → a.allocator.next + demand bitmap.bits a.page_table + a.allocator.extent_atoms
        ≤ a.allocator.capacity + 1
      → (a' : Arena P) × (plan_exact zeros bitmap false a ≡ (ok tt, a'))
  unfolding plan_exact
  plan_exact_granted bitmap a v fits room = from (plan_union_cases zeros bitmap a v)
    where
      from :
          {out : Result (Unit {0}) × Arena P}
          → Planned zeros bitmap a out
          → (a' : Arena P) × (out ≡ (ok tt, a'))
      from (bad_shape q bad) = cc
      from (no_room q full) = absurd (
          omega (
            arith,
            placed_bounds a.allocator.next a.allocator.extent_atoms
                (demand bitmap.bits a.page_table) v.sized.extent_pos,
          ))
      from (planned first b q fit p) = (b, q)

  -- In a valid arena, a demand for all the slots that are free is refused if the cursor stands
  -- inside an extent and the demand goes past that extent's end: the slots that the alignment skips
  -- are then missing.
  pub plan_exact_fragmented :
      (bitmap : Bitmap) (a : Arena P)
      → IsValid zeros a
      → shape_fits a bitmap ≡ true
      → a.allocator.next % a.allocator.extent_atoms ≢ 0
      → neg_mod a.allocator.next a.allocator.extent_atoms < demand bitmap.bits a.page_table
      → a.allocator.next + demand bitmap.bits a.page_table ≡ a.allocator.capacity
      → plan_exact zeros bitmap false a ≡ (raised runtime_error, a)
  unfolding plan_exact
  plan_exact_fragmented bitmap a v fits inside past exact = from (plan_union_cases zeros bitmap a v)
    where
      from :
          {out : Result (Unit {0}) × Arena P}
          → Planned zeros bitmap a out
          → out ≡ (raised runtime_error, a)
      from (bad_shape q bad) = cc
      from (no_room q full) = q
      from (planned first b q fit p) = absurd (
          omega (
            arith,
            placed_next a.allocator.next a.allocator.extent_atoms (demand bitmap.bits a.page_table)
                v.sized.extent_pos inside past,
            p.lands,
            p.finish,
            p.valid.bounded,
            ap logical_atoms p.same_keying,
            v.sized.capacity,
          ))

  -- Every atom of the arena.
  pub whole : Arena P → Bitmap
  whole a = record {
    rows = a.keying.bh;
    columns = atoms_per_bh a.keying;
    bits = replicate (logical_atoms a.keying) true;
  }

  whole-demand :
      (a b : Arena P)
      → IsValid zeros a
      → IsFresh zeros (cleared a) b
      → demand (whole a).bits b.page_table ≡ logical_atoms a.keying
  unfolding whole cleared
  whole-demand a b v f = rw (f.table, v.sized.rows) (demand_full (logical_atoms a.keying))

  whole-fits : (a b : Arena P) → IsFresh zeros (cleared a) b → shape_fits b (whole a) ≡ true
  unfolding whole shape_fits cleared
  whole-fits a b f = rw f.same_keying (ground arith)

  -- A slack pool takes its slots out of the dense limit: in a valid arena with one, a fresh
  -- admission of every atom of the arena is refused.
  pub plan_exact_pooled :
      (a : Arena P)
      → IsValid zeros a
      → 0 < a.keying.bh * a.pool_capacity
      → (plan_exact zeros (whole a) true a).0 ≡ raised runtime_error
  unfolding plan_exact cleared
  plan_exact_pooled a v some_pool =
      let (b, e, f) = reset_lem zeros a v in
      rw e (from b f (plan_union_cases zeros (whole a) b f.valid))
    where
      pooled : (b : Arena P) → IsFresh zeros (cleared a) b → 0 < b.allocator.next
      pooled b f = omega (arith, f.pooled)

      from :
          (b : Arena P)
          → IsFresh zeros (cleared a) b
          → {out : Result (Unit {0}) × Arena P} → Planned zeros (whole a) b out
          → out.0 ≡ raised runtime_error
      from b f (bad_shape q bad) = cc (whole-fits a b f)
      from b f (no_room q full) = ap (λ r. r.0) q
      from b f (planned first c q fit p) = absurd (
          omega (
            arith,
            p.finish,
            p.start,
            p.valid.bounded,
            pooled b f,
            whole-demand a b v f,
            ap logical_atoms (p.same_keying ∙ f.same_keying),
          ))
