-- ===== src/Arena/Residency.antt =====
-- `plan_exact` against residency: which atoms it maps, to which slots, and what their pages hold.
use rola.Prelude.{
  Bool, List, Option, Result, ap, arith, false, get_elem?, get_or, length, none, ok, some, ℕ, ◌<◌,
  ◌||◌, ◌≡◌,
}
use rola.Keying.{logical_atoms}
use mathlib.Core.Path.{subst}
use native.Mathlib.Decide.{ℕ_discrete}
use rola.Tensor.Laws.{hits, zero_run_inside, zero_run_outside}
use rola.Arena.Pool.{pool_count}
use rola.Arena.{Arena, mapped_pages, Bitmap, plan_exact}
use rola.Arena.Table.{
  demand, slot_count_pos, slot_count_twice, is_resident, fill-resident, fill_kept, fill_new,
}
use rola.Arena.Invariant.{IsValid}
use rola.Arena.Plan.{IsPlanned, Planned, bad_shape, no_room, planned, plan_union_cases}

module _ {ℓ} {P : Type ℓ} (zeros : P) where
  -- The slot of a resident atom: no other atom has it, no pool position that is unspent names it,
  -- and the page is inside the mapped prefix of the plane.
  pub record IsExclusive (a : Arena P) (i s : ℕ) : Type ℓ where
    pub no_other : (j : ℕ) → get_elem? a.page_table j ≡ some (some s) → j ≡ i
    pub not_pooled : pool_count s a.pool_slots a.pool_cursor ≡ 0
    pub in_plane : s < length a.value_base
    pub is_mapped : s < mapped_pages a

  -- In a valid arena every resident atom has its slot to itself.
  pub resident-IsExclusive :
      (a : Arena P) (i s : ℕ)
      → IsValid zeros a
      → get_elem? a.page_table i ≡ some (some s)
      → IsExclusive a i s
  resident-IsExclusive a i s v h = record {
    no_other = λ j k. elim (ℕ_discrete j i) [
      | yes e ↦ e
      | no ne ↦ absurd (ground (arith, v.owned_once s, slot_count_twice a.page_table j i s ne k h))
    ];
    not_pooled = ground (arith, v.owned_once s, slot_count_pos a.page_table i s h);
    in_plane = ground (arith, used, v.bounded, v.sized.plane);
    is_mapped = ground (arith, used, v.mapped);
  }
    where
      used : s < a.allocator.next
      used = ground (arith, v.owned_once s, slot_count_pos a.page_table i s h)

  -- What a granted admission comes to, atom by atom.
  pub record IsAdmitted (bitmap : Bitmap) (a a' : Arena P) : Type ℓ where
    -- Resident afterwards: exactly what was, and what is asked for.
    pub union :
        (i : ℕ)
        → i < logical_atoms a.keying
        → is_resident a'.page_table i ≡ is_resident a.page_table i || get_or bitmap.bits i false
    -- A resident atom keeps its slot and its page.
    pub kept_slot :
        (i s : ℕ)
        → get_elem? a.page_table i ≡ some (some s)
        → get_elem? a'.page_table i ≡ some (some s)
    pub kept_page :
        (i s : ℕ)
        → get_elem? a.page_table i ≡ some (some s)
        → get_elem? a'.value_base s ≡ get_elem? a.value_base s
    -- A new one reads as zeros.
    pub new_zero :
        (i s : ℕ)
        → get_elem? a.page_table i ≡ some none
        → get_elem? a'.page_table i ≡ some (some s)
        → get_elem? a'.value_base s ≡ some zeros
    pub same_keying : a'.keying ≡ a.keying

  planned-IsAdmitted :
      (bitmap : Bitmap) (a a' : Arena P) (first : ℕ)
      → IsValid zeros a
      → IsPlanned zeros bitmap a first a'
      → IsAdmitted bitmap a a'
  planned-IsAdmitted bitmap a a' first v p = record {
    union = λ i lt. rw p.table (fill-resident bits table first i (omega (arith, v.sized.rows)));
    kept_slot = λ i s h. rw p.table (fill_kept bits table first i s h);
    kept_page = λ i s h. rw p.plane (
        zero_run_outside zeros first wants a.value_base s
          (ground (arith, v.owned_once s, slot_count_pos table i s h, p.start)));
    new_zero = λ i s h k.
        let hit : hits first wants s ≡ 1 = fill_new bits table first i s h (rw p.table at k) in
        rw p.plane (zero_run_inside zeros first wants a.value_base s (in_plane s hit) hit);
    same_keying = p.same_keying;
  }
    where
      bits : List Bool
      bits = bitmap.bits

      table : List (Option ℕ)
      table = a.page_table

      wants : ℕ
      wants = demand bitmap.bits a.page_table

      in_plane : (s : ℕ) → hits first wants s ≡ 1 → s < length a.value_base
      in_plane s hit =
          ground (arith, p.finish, p.valid.bounded, v.sized.plane, ap logical_atoms p.same_keying)

  -- A continued admission of a valid arena that returns has made the residency the union of what
  -- was resident and what the bitmap asks for; atoms that were resident keep their slots and pages,
  -- and new ones read as zeros.
  pub plan_exact_continued :
      (bitmap : Bitmap) (a a' : Arena P)
      → IsValid zeros a
      → plan_exact zeros bitmap false a ≡ (ok tt, a')
      → IsAdmitted bitmap a a'
  unfolding plan_exact
  plan_exact_continued bitmap a a' v run = from (plan_union_cases zeros bitmap a v) run
    where
      from :
          {out : Result (Unit {0}) × Arena P}
          → Planned zeros bitmap a out
          → out ≡ (ok tt, a')
          → IsAdmitted bitmap a a'
      from (bad_shape e bad) done = cc
      from (no_room e room) done = cc
      from (planned first b e fits p) done =
          subst (IsAdmitted bitmap a) (cc) (planned-IsAdmitted bitmap a b first v p)
