-- ===== src/State/Reach.antt =====
-- The states that a program can come to have: made by `state`, then called with, committed to, grown,
-- refilled and cloned, in any order, each step granted or refused. What a decode step itself
-- does on the device, its claims of pool slots among it, is no step.
use Prim.Native.String.{String}
use rola.Prelude.{Bool, List, Option, ok, true, ℕ, ◌≡◌}
use rola.Arena.Create.{Slack}
use rola.State.{Routes}
use rola.State.Carried.{Driver, RolaState, rola_state, kernel_commit, bound}
use rola.State.Entry.{kernel_entry, decode_entry_arena, refill_pool}
use rola.State.Clone.{clone}
use rola.State.Invariant.{IsSaneDriver, IsSaneSlack, IsSound}
use rola.State.Bound.{kernel_entry-IsSound}
use rola.State.Life.{
  rola_state-IsSound, kernel_commit-IsSound, decode_entry_arena-IsSound, refill_pool-IsSound,
}
use rola.State.Cloned.{clone-IsCloneOf}

module _ {ℓ κ} {P : Type ℓ} {Q : Type κ} (zeros unset : P) (driver : Driver) where
  pub data Reachable : RolaState P Q → Type (ℓ ⊔ κ) where
    opened :
        (strategy : String) (slack : Slack) (s : RolaState P Q)
        → IsSaneSlack slack
        → rola_state strategy slack ≡ ok s
        → Reachable s
    called :
        (routes : Routes) (bits : Option (List ℕ)) (d_v : ℕ) (paging : Bool) (bc : ℕ)
        (s : RolaState P Q)
        → Reachable s
        → Reachable (kernel_entry zeros unset driver routes bits d_v paging bc s).1
    committed :
        (q : Q) (s : RolaState P Q) → bound s ≡ true → Reachable s → Reachable (kernel_commit q s)
    grown :
        (bits : List Bool) (s : RolaState P Q)
        → Reachable s
        → Reachable (decode_entry_arena zeros bits s).1
    topped_up : (s : RolaState P Q) → Reachable s → Reachable (refill_pool zeros s).1
    cloned :
        (strategy : Option String) (s copy : RolaState P Q)
        → Reachable s
        → clone zeros unset driver strategy s ≡ ok copy
        → Reachable copy

  -- After any sequence of calls, commits to bound states, growths, refills and clones that
  -- returned, of which the calls, growths and refills may have raised, from states opened with a
  -- pool slack whose fraction of a count is at most the count, shape, device and format are bound
  -- together or not at all, an unbound state holds nothing, no state holds both an arena and a
  -- plane, and an arena that is held is valid and of the state's shape, where the driver's granules
  -- are positive and the driver maps what it is asked for. The device's own claims of pool slots in
  -- a decode step are no step of the sequence.
  pub Reachable-IsSound : (s : RolaState P Q) → IsSaneDriver driver → Reachable s → IsSound zeros s
  Reachable-IsSound _ sane (opened strategy slack s sane_slack run) =
      (rola_state-IsSound zeros strategy slack s sane_slack run).0
  Reachable-IsSound _ sane (called routes bits d_v paging bc s r) =
      kernel_entry-IsSound zeros unset driver routes bits d_v paging bc s sane
        (Reachable-IsSound s sane r)
  Reachable-IsSound _ sane (committed q s is_bound r) =
      kernel_commit-IsSound zeros q s is_bound (Reachable-IsSound s sane r)
  Reachable-IsSound _ sane (grown bits s r) =
      decode_entry_arena-IsSound zeros bits s (Reachable-IsSound s sane r)
  Reachable-IsSound _ sane (topped_up s r) =
      refill_pool-IsSound zeros s (Reachable-IsSound s sane r)
  Reachable-IsSound _ sane (cloned strategy s copy r run) =
      (clone-IsCloneOf zeros unset driver strategy s copy sane (Reachable-IsSound s sane r)
        run).sound
