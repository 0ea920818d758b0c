-- ===== src/State/Bound.antt =====
-- `_kernel_entry`: what a call binds, what it checks, and that it leaves the state sound.
use mathlib.Core.Path.{subst}
use rola.Prelude.{
  Bool, List, Option, Result, ap, arith, if-keeps, is_some-false, none, ok, prod, refl, some, sym,
  ℕ, ◌%◌, ◌*◌, ◌+◌, ◌∙◌, ◌≡◌,
}
use rola.State.{StateFormat, Routes, presented, format_of, capacity}
use rola.State.Format.{IsFormat, state_format-IsFormat, check_iff}
use rola.State.Carried.{
  Driver, Shape, RolaState, bound, bind, agree, bind_or_agree, write_bitmap, present_or,
}
use rola.State.Entry.{kernel_entry}
use rola.State.Invariant.{
  IsSaneDriver, IsBinding, BoundTogether, unbound, bound_to, OneBacking, nothing_held, paged_only,
  dense_only, IsSound,
}
use rola.State.Sound.{enter-IsSound}
use rola.Prelude.Methods.{then_run-keeps}

-- The descriptor that a call presents is of its widths.
pub format_of-eq :
    (routes : Routes) (d_v bh : ℕ) (f : StateFormat)
    → format_of routes d_v bh ≡ ok f
    → IsFormat f × (f.widths ≡ routes.widths) × (f.dv ≡ d_v) × (prod f.widths % 16 ≡ 0)
unfolding format_of presented capacity
format_of-eq routes d_v bh f run =
    let (e, l, whole) = state_format-IsFormat (presented routes d_v bh) f run in
    (
      subst IsFormat (sym e) l,
      ap (λ g. g.widths) e,
      ap (λ g. g.dv) e,
      rw (ap (λ g. g.widths) e) whole,
    )

-- What the first call binds.
call-IsBinding :
    (routes : Routes) (d_v bh : ℕ) (f : StateFormat)
    → format_of routes d_v bh ≡ ok f
    → IsBinding
        (record {
          batch = routes.batch;
          heads = routes.heads;
          n = prod routes.widths;
          cols = d_v + 1;
        })
        f
call-IsBinding routes d_v bh f run =
    let (l, widths, dv, whole) = format_of-eq routes d_v bh f run in
    record {
      lawful = l;
      capacity = sym (ap prod widths);
      whole = sym (ap (λ w. prod w % 16) widths) ∙ whole;
      value_width = omega (arith, dv);
    }

module _ {ℓ κ} {P : Type ℓ} {Q : Type κ} (zeros : P) where
  pub bind_or_agree-IsSound :
      (routes : Routes) (d_v : ℕ) (paging : Bool) (f : StateFormat) (s : RolaState P Q)
      → format_of routes d_v (routes.batch * routes.heads) ≡ ok f
      → IsSound zeros s
      → IsSound zeros (bind_or_agree routes d_v paging f s).1
  unfolding bind_or_agree bound bind
  bind_or_agree-IsSound routes d_v paging f s run v =
      if-keeps (λ (out : Result (Unit {0}) × RolaState P Q). IsSound zeros out.1) (bound s)
        (λ yes_bound. v)
        (λ not_bound. record {
          strategy = v.strategy;
          slack = v.slack;
          together = bound_to _ _ _ refl refl refl (call-IsBinding routes d_v _ f run);
          backing = empty (is_some-false s.shape not_bound) v.backing;
        })
    where
      empty :
          {sh : Option Shape}
          → s.shape ≡ none
          → OneBacking zeros s.shape s.arena s.plane
          → OneBacking zeros sh s.arena s.plane
      empty e (nothing_held a p) = nothing_held a p
      empty e (paged_only sh c b a p k) = cc
      empty e (dense_only sh q b a p) = cc

  -- After the if, the state has the shape of the call.
  bind_or_agree-shape :
      (routes : Routes) (d_v : ℕ) (paging : Bool) (f : StateFormat) (s : RolaState P Q)
      → format_of routes d_v (routes.batch * routes.heads) ≡ ok f
      → IsSound zeros s
      → (bind_or_agree routes d_v paging f s).0 ≡ ok tt
      → (sh : Shape) × ((bind_or_agree routes d_v paging f s).1.shape ≡ some sh)
        × (prod routes.widths ≡ sh.n)
  unfolding bind_or_agree bound bind agree present_or
  bind_or_agree-shape routes d_v paging f s run v agreed = from v.together
    where
      from :
          BoundTogether s.shape s.device s.format
          → (sh : Shape) × ((bind_or_agree routes d_v paging f s).1.shape ≡ some sh)
            × (prod routes.widths ≡ sh.n)
      from (unbound e1 e2 e3) = rw e1 (_, refl, refl)
      from (bound_to sh d g e1 e2 e3 b) =
          let same : g ≡ f = (check_iff g f).0 (rw (e1, e3) at agreed) in
          let (l, widths, dv, whole) = format_of-eq routes d_v _ f run in
          rw e1
            (sh, refl, sym (ap prod widths) ∙ sym (ap (λ h. prod h.widths) same) ∙ sym b.capacity)

module _ {ℓ κ} {P : Type ℓ} {Q : Type κ} (zeros unset : P) (driver : Driver) where
  pub kernel_entry-IsSound :
      (routes : Routes) (bits : Option (List ℕ)) (d_v : ℕ) (paging : Bool) (bc : ℕ)
      (s : RolaState P Q)
      → IsSaneDriver driver
      → IsSound zeros s
      → IsSound zeros (kernel_entry zeros unset driver routes bits d_v paging bc s).1
  unfolding kernel_entry
  kernel_entry-IsSound routes bits d_v paging bc s sane v =
      then_run-keeps (IsSound zeros) (format_of routes d_v (routes.batch * routes.heads), s) _ v
        (λ f run.
          then_run-keeps (IsSound zeros) (bind_or_agree routes d_v paging f s) _
            (bind_or_agree-IsSound zeros routes d_v paging f s run v)
            (λ u agreed.
              let w = bind_or_agree-IsSound zeros routes d_v paging f s run v in
              let (sh, e, whole) = bind_or_agree-shape zeros routes d_v paging f s run v agreed in
              then_run-keeps (IsSound zeros)
                (
                  write_bitmap bits (bind_or_agree routes d_v paging f s).1,
                  (bind_or_agree routes d_v paging f s).1,
                )
                _ w
                (λ bitmap e'.
                  enter-IsSound zeros unset driver routes bc bitmap
                    (bind_or_agree routes d_v paging f s).1 sh sane w e whole)))
