-- ===== src/State/Life.antt =====
-- The life of a carried state: it is made, called, committed to, grown and cloned, in any order.
use Prim.Native.String.{String}
use text.Mathlib.Text.{◌==◌ as str_eq}
use text.Mathlib.TextEquality.{eq_iff}
use mathlib.Core.Path.{subst}
use rola.Prelude.{
  Bool, Bool-cases, List, Option, arith, false, if-keeps, inl, inr, is_some, is_some-false, none,
  ok, ok_injective, refl, some, true, ◌||◌, ◌∙◌, ◌≡◌,
}
use rola.Prelude.Methods.{then_run-keeps}
use rola.Arena.Create.{Slack}
use rola.State.Carried.{
  unbound_state, CarriedArena, RolaState, unbound_state, rola_state, kernel_commit, bound,
  built_strategy, designed_strategy, on_arena, reshaped, state_keying,
}
use rola.Arena.Refill.{refill_pool-IsValid, refill_pool-keying}
use rola.State.Entry.{decode_entry_arena, admit_into, plan_optional, refill_into, refill_pool}
use rola.State.Invariant.{
  IsSaneSlack, BoundTogether, unbound, bound_to, OneBacking, nothing_held, paged_only, dense_only,
  IsSound,
}
use rola.State.Held.{plan_optional-IsCarried}
use rola.State.Sound.{of_arena}

module _ {ℓ κ} {P : Type ℓ} {Q : Type κ} (zeros : P) where
  pub rola_state-IsSound :
      (strategy : String) (slack : Slack) (s : RolaState P Q)
      → IsSaneSlack slack
      → rola_state strategy slack ≡ ok s
      → IsSound zeros s × (s.shape ≡ none) × (s.pool_slack ≡ slack)
  unfolding rola_state unbound_state
  rola_state-IsSound strategy slack s sane run =
      elim (Bool-cases (str_eq strategy designed_strategy)) [
        | inl planned ↦ cc (rw planned at run)
        | inr other ↦ elim (Bool-cases (str_eq strategy built_strategy)) [
          | inr unknown ↦ cc (rw (other, unknown) at run)
          | inl built ↦
              subst (λ t. IsSound zeros t × (t.shape ≡ none) × (t.pool_slack ≡ slack))
                (ok_injective (unbound_state strategy slack) s (rw (other, built) at run))
                (fresh ((eq_iff strategy built_strategy).0 built), refl, refl)
        ]
      ]
    where
      fresh : strategy ≡ built_strategy → IsSound {Q = Q} zeros (unbound_state strategy slack)
      fresh named = record {
        strategy = named;
        slack = sane;
        together = unbound refl refl refl;
        backing = nothing_held refl refl;
      }

  pub kernel_commit-IsSound :
      (q : Q) (s : RolaState P Q)
      → bound s ≡ true
      → IsSound zeros s
      → IsSound zeros (kernel_commit q s)
  unfolding kernel_commit bound
  kernel_commit-IsSound q s is_bound v =
      if-keeps (IsSound zeros) (is_some s.arena || is_some s.plane) (λ full. v)
        (λ empty. record {
          strategy = v.strategy;
          slack = v.slack;
          together = v.together;
          backing = taken v.together (no_arena empty);
        })
    where
      no_arena : (is_some s.arena || is_some s.plane) ≡ false → s.arena ≡ none
      no_arena empty = is_some-false s.arena (ground arith)

      taken :
          BoundTogether s.shape s.device s.format
          → s.arena ≡ none
          → OneBacking zeros s.shape s.arena (some q)
      taken (unbound e1 e2 e3) a = cc
      taken (bound_to sh d f e1 e2 e3 b) a = dense_only sh q e1 a refl

  pub decode_entry_arena-IsSound :
      (bits : List Bool) (s : RolaState P Q)
      → IsSound zeros s
      → IsSound zeros (decode_entry_arena zeros bits s).1
  unfolding decode_entry_arena admit_into on_arena plan_optional
  decode_entry_arena-IsSound bits s v = from s.arena refl
    where
      from :
          (arena : Option (CarriedArena P))
          → s.arena ≡ arena
          → IsSound zeros (admit_into zeros arena bits s).1
      from none a = v
      from (some c) a =
          let (sh, e, p, k) = of_arena zeros s c v a in
          then_run-keeps (IsSound zeros) (state_keying s, s) _ v
            (λ keying e1.
              then_run-keeps (IsSound zeros) (reshaped keying bits, s) _ v
                (λ bitmap e2. record {
                  strategy = v.strategy;
                  slack = v.slack;
                  together = v.together;
                  backing =
                      paged_only sh _ e refl p
                        (plan_optional-IsCarried zeros sh c (some bitmap) false k);
                }))

  pub refill_pool-IsSound :
      (s : RolaState P Q) → IsSound zeros s → IsSound zeros (refill_pool zeros s).1
  unfolding refill_pool refill_into on_arena
  refill_pool-IsSound s v = from s.arena refl
    where
      from :
          (arena : Option (CarriedArena P))
          → s.arena ≡ arena
          → IsSound zeros (refill_into zeros arena s).1
      from none a = v
      from (some c) a =
          let (sh, e, p, k) = of_arena zeros s c v a in
          record {
            strategy = v.strategy;
            slack = v.slack;
            together = v.together;
            backing = paged_only sh _ e refl p (record {
              valid = (refill_pool-IsValid zeros c.pages k.valid).0;
              same_keying = refill_pool-keying zeros c.pages k.valid ∙ k.same_keying;
              same_widths = k.same_widths;
            });
          }
