-- ===== src/State/Sound.antt =====
-- Each operation of a carried state keeps what holds of it, whether it returns or raises.
use mathlib.Core.Path.{subst}
use rola.Prelude.{
  Bool, List, Option, Result, Result-cases, false, inl, inr, none, ok, prod, raised, refl, some,
  true, ℕ, ◌≡◌,
}
use rola.Prelude.Methods.{then_run}
use rola.Arena.{Bitmap}
use rola.State.{Routes}
use rola.State.Carried.{Driver, Shape, CarriedArena, RolaState, KernelEntry, new_arena}
use rola.State.Entry.{settled, enter_by, plan_optional, continue_arena, plan_first, enter}
use rola.State.Invariant.{
  IsSaneDriver, IsCarried, OneBacking, nothing_held, paged_only, dense_only, IsSound,
}
use rola.State.Held.{plan_optional-IsCarried, new_arena-IsCarried}

module _ {ℓ κ} {P : Type ℓ} {Q : Type κ} (zeros : P) where
  -- The state with an arena of its shape in place.
  held :
      (s : RolaState P Q) (sh : Shape) (c : CarriedArena P)
      → IsSound zeros s
      → s.shape ≡ some sh
      → s.plane ≡ none
      → IsCarried zeros sh c
      → IsSound zeros (record s { arena = some c })
  held s sh c v e none_dense k = record {
    strategy = v.strategy;
    slack = v.slack;
    together = v.together;
    backing = paged_only sh c e refl none_dense k;
  }

  settled-IsSound :
      (r : Result (Unit {0})) (entry : KernelEntry P Q) (after before : RolaState P Q)
      → IsSound zeros after
      → IsSound zeros before
      → IsSound zeros (settled r entry after before).1
  unfolding settled
  settled-IsSound (ok t) entry after before v w = v
  settled-IsSound (raised e) entry after before v w = w

  continue_arena-IsSound :
      (s : RolaState P Q) (sh : Shape) (c : CarriedArena P) (bitmap : Option Bitmap)
      → IsSound zeros s
      → s.shape ≡ some sh
      → s.plane ≡ none
      → IsCarried zeros sh c
      → IsSound zeros (continue_arena zeros c bitmap s).1
  unfolding continue_arena
  continue_arena-IsSound s sh c bitmap v e none_dense k =
      elim (Result-cases (plan_optional zeros bitmap false c.pages).0) [
        | inl (t, r) ↦ rw r kept
        | inr (x, r) ↦ rw r kept
      ]
    where
      kept : IsSound zeros (record s {
        arena = some (record c { pages = (plan_optional zeros bitmap false c.pages).1 });
      })
      kept = held s sh _ v e none_dense (plan_optional-IsCarried zeros sh c bitmap false k)

  plan_first-IsSound :
      (s : RolaState P Q) (sh : Shape) (c : CarriedArena P) (bitmap : Option Bitmap)
      → IsSound zeros s
      → s.shape ≡ some sh
      → s.plane ≡ none
      → IsCarried zeros sh c
      → IsSound zeros (plan_first zeros c bitmap s).1
  unfolding plan_first
  plan_first-IsSound s sh c bitmap v e none_dense k =
      settled-IsSound (plan_optional zeros bitmap true c.pages).0 _ _ s
        (held s sh _ v e none_dense (plan_optional-IsCarried zeros sh c bitmap true k)) v

  -- Who holds an arena is bound, and holds no plane.
  pub of_arena :
      (s : RolaState P Q) (c : CarriedArena P)
      → IsSound zeros s
      → s.arena ≡ some c
      → (sh : Shape) × (s.shape ≡ some sh) × (s.plane ≡ none) × IsCarried zeros sh c
  of_arena s c v e = from v.backing
    where
      from :
          OneBacking zeros s.shape s.arena s.plane
          → (sh : Shape) × (s.shape ≡ some sh) × (s.plane ≡ none) × IsCarried zeros sh c
      from (nothing_held a p) = cc
      from (dense_only sh q b a p) = cc
      from (paged_only sh d b a p k) = (sh, b, p, subst (IsCarried zeros sh) (cc) k)

module _ {ℓ κ} {P : Type ℓ} {Q : Type κ} (zeros unset : P) (driver : Driver) where
  fresh_storage-IsSound :
      (s : RolaState P Q) (sh : Shape) (widths : List ℕ) (bc : ℕ) (bitmap : Option Bitmap)
      → IsSaneDriver driver
      → IsSound zeros s
      → s.shape ≡ some sh
      → s.plane ≡ none
      → prod widths ≡ sh.n
      → IsSound zeros
          (then_run
            (new_arena zeros unset driver widths bc s, s)
            (λ made. plan_first zeros made bitmap)).1
  fresh_storage-IsSound s sh widths bc bitmap sane v e none_dense whole =
      elim (Result-cases (new_arena zeros unset driver widths bc s)) [
        | inl (c, r) ↦ rw r (
            plan_first-IsSound zeros s sh c bitmap v e none_dense
              (new_arena-IsCarried zeros unset driver s sh widths bc sane v.slack e whole c r))
        | inr (x, r) ↦ rw r v
      ]

  enter_by-IsSound :
      (arena : Option (CarriedArena P)) (plane : Option Q) (paging : Bool) (routes : Routes)
      (bc : ℕ) (bitmap : Option Bitmap) (s : RolaState P Q) (sh : Shape)
      → IsSaneDriver driver
      → IsSound zeros s
      → s.shape ≡ some sh
      → prod routes.widths ≡ sh.n
      → s.arena ≡ arena
      → s.plane ≡ plane
      → IsSound zeros (enter_by zeros unset driver arena plane paging routes bc bitmap s).1
  unfolding enter_by
  enter_by-IsSound (some c) plane paging routes bc bitmap s sh sane v e whole a p =
      let (sh', e', none_dense, k) = of_arena zeros s c v a in
      continue_arena-IsSound zeros s sh' c bitmap v e' none_dense k
  enter_by-IsSound none (some q) paging routes bc bitmap s sh sane v e whole a p = v
  enter_by-IsSound none none false routes bc bitmap s sh sane v e whole a p = v
  enter_by-IsSound none none true routes bc bitmap s sh sane v e whole a p =
      fresh_storage-IsSound s sh routes.widths bc bitmap sane v e p whole

  pub enter-IsSound :
      (routes : Routes) (bc : ℕ) (bitmap : Option Bitmap) (s : RolaState P Q) (sh : Shape)
      → IsSaneDriver driver
      → IsSound zeros s
      → s.shape ≡ some sh
      → prod routes.widths ≡ sh.n
      → IsSound zeros (enter zeros unset driver routes bc bitmap s).1
  unfolding enter
  enter-IsSound routes bc bitmap s sh sane v e whole =
      enter_by-IsSound s.arena s.plane s.paging routes bc bitmap s sh sane v e whole refl refl
