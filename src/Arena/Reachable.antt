-- ===== src/Arena/Reachable.antt =====
-- The life of an arena on the host: a constructor, and then admissions, resets and refills in any
-- order, granted or refused. The device's own claims of pool slots are no step of it.
use rola.Prelude.{Bool, get_elem?, ok, some, ℕ, ◌≡◌}
use rola.Arena.{Arena, Bitmap, plan_exact, reset, refill_pool}
use rola.Arena.Create.{ArenaOptions, page_arena}
use rola.Arena.Created.{IsSane, page_arena-IsValid}
use rola.Arena.Invariant.{IsValid}
use rola.Arena.Plan.{plan_exact-IsValid}
use rola.Arena.Refill.{refill_pool-IsValid}
use rola.Arena.Reset.{reset_lem}
use rola.Arena.Residency.{IsExclusive, resident-IsExclusive}

module _ {ℓ} {P : Type ℓ} (zeros unset : P) where
  pub data Reachable : Arena P → Type ℓ where
    built :
        (opts : ArenaOptions) (a : Arena P)
        → IsSane opts
        → page_arena zeros unset opts ≡ ok a
        → Reachable a
    planned :
        (bitmap : Bitmap) (fresh : Bool) (a : Arena P)
        → Reachable a
        → Reachable (plan_exact zeros bitmap fresh a).1
    emptied : (a : Arena P) → Reachable a → Reachable (reset zeros a).1
    topped_up : (a : Arena P) → Reachable a → Reachable (refill_pool zeros a).1

  pub Reachable-IsValid : {a : Arena P} → Reachable a → IsValid zeros a
  Reachable-IsValid (built opts a s run) = (page_arena-IsValid zeros unset opts a s run).0
  Reachable-IsValid (planned bitmap fresh a r) =
      plan_exact-IsValid zeros bitmap fresh a (Reachable-IsValid r)
  Reachable-IsValid (emptied a r) =
      let (a', e, fresh) = reset_lem zeros a (Reachable-IsValid r) in rw e fresh.valid
  Reachable-IsValid (topped_up a r) = (refill_pool-IsValid zeros a (Reachable-IsValid r)).0

  -- However an arena has been used from its construction on, the slot of a resident atom is its
  -- own: no other atom has it, no pool position that is unspent names it, and its page is inside
  -- the mapped prefix of the plane. It was built with sane options: the driver's granule is
  -- positive, the driver maps what it is asked for, and a fraction of a count is at most the count.
  pub Reachable-IsExclusive :
      (a : Arena P) (i s : ℕ)
      → Reachable a
      → get_elem? a.page_table i ≡ some (some s)
      → IsExclusive zeros a i s
  Reachable-IsExclusive a i s r h = resident-IsExclusive zeros a i s (Reachable-IsValid r) h
