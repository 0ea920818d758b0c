-- ===== src/Arena/Starved.antt =====
-- A reservation over a driver that may refuse to map: `self._allocator.take`, and then a `self._commit`
-- that raises.
use rola.Prelude.{
  Exception, Result-cases, ap, arith, false, inl, inr, ok, raised, raised_injective, refl,
  runtime_error, sym, true, ℕ, ◌+◌, ◌<◌, ◌≡◌, ◌≢◌, ◌≤◌, ◌⊎◌,
}
use rola.Prelude.Methods.{Exec, ◌>>=◌, ◌>>◌}
use rola.Keying.{logical_atoms}
use rola.Rules.{placed}
use rola.Extents.{ExtentAllocator}
use rola.Extents.Take.{Taken, take_cases}
use rola.Vmm.{VmmOwner, target_bytes}
use rola.Vmm
use rola.Vmm.Growth.{grow_refused}
use rola.Arena.{Backing, dense, vmm, Arena, took, take_slots, grow_backing, grown, commit}
use rola.Arena.Invariant.{Backs, IsSized}

-- The driver does not map the growth to so many pages.
abbrev pub Starved : Backing → ℕ → Type 0
Starved dense pages = ⊥
Starved (vmm owner) pages = owner.maps (target_bytes owner pages) ≡ false

-- The backing, over a driver that maps whatever is asked.
abbrev pub served_backing : Backing → Backing
served_backing dense = dense
served_backing (vmm owner) = vmm (record owner { maps = λ n. true })

module _ {ℓ} {P : Type ℓ} where
  abbrev pub serving : Arena P → Arena P
  serving a = record a { backing = served_backing a.backing }

  grow_backing_cases :
      (b : Backing) (a : Arena P) (limit pages : ℕ)
      → Backs (served_backing b) limit
      → pages ≤ limit
      → ((a' : Arena P) × (grow_backing b pages a ≡ (ok tt, a')))
        ⊎ ((grow_backing b pages a ≡ (raised runtime_error, a)) × Starved b pages)
  unfolding grow_backing grown
  grow_backing_cases dense a limit pages v le = inl (a, refl)
  grow_backing_cases (vmm owner) a limit pages v le = elim (Result-cases (Vmm.grow owner pages)) [
    | inl (o, e) ↦ inl (record a { backing = vmm o }, rw e refl)
    | inr (x, e) ↦
        let (is_runtime, starved) =
          grow_refused owner pages x v.0.granule_pos (omega (arith, v.1)) e in
        inr (rw (e, is_runtime) refl, starved)
  ]

  -- A reservation that raises, before a continuation that does not.
  pub reserve_raised {κ} :
      {B : Type κ} (a a' : Arena P) (n : ℕ) (k : ℕ → Exec (Arena P) B) (e : Exception)
      → IsSized (serving a)
      → a.allocator.next ≤ logical_atoms a.keying
      → ((first : ℕ) (b c : Arena P) (x : Exception) → k first b ≢ (raised x, c))
      → (take_slots n >>= λ first. commit >> k first) a ≡ (raised e, a')
      → ((a' ≡ a)
          × (e ≡ runtime_error)
          × (a.allocator.capacity < placed a.allocator.next a.allocator.extent_atoms n + n))
        ⊎ ((first : ℕ) × (al : ExtentAllocator) × (a' ≡ record a { allocator = al })
            × (e ≡ runtime_error)
            × Taken a.allocator n first al
            × Starved a.backing al.next)
  unfolding take_slots took commit
  reserve_raised {B = B} a a' n k e v le quiet run = elim (take_cases a.allocator n v.extent_pos) [
    | inl (f, room, wanted) ↦
        let out : (raised runtime_error, a) ≡ (raised e, a') = rw f at run in
        inl (
          sym (ap (λ p. p.1) out),
          sym (raised_injective B runtime_error e (ap (λ p. p.0) out)),
          room,
        )
    | inr (first, al, f, t) ↦
        let below : al.next ≤ logical_atoms a.keying = omega (arith, t.bounded, v.capacity) in
        elim (grow_backing_cases a.backing (record a { allocator = al }) _ al.next v.backs below) [
          | inl (b, g) ↦ absurd (quiet first b a' e (rw (f, g) at run))
          | inr (g, starved) ↦
              let out : (raised runtime_error, record a { allocator = al }) ≡ (raised e, a') =
                rw (f, g) at run in
              inr (
                first,
                al,
                sym (ap (λ p. p.1) out),
                sym (raised_injective B runtime_error e (ap (λ p. p.0) out)),
                t,
                starved,
              )
        ]
  ]
