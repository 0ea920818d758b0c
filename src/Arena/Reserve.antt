-- ===== src/Arena/Reserve.antt =====
-- `self._allocator.take` and then `self._commit`, which every admission begins with.
use rola.Prelude.{
  Result, arith, inl, inr, ok, raised, refl, runtime_error, ℕ, ◌+◌, ◌<◌, ◌∙◌, ◌≡◌, ◌≤◌,
}
use rola.Prelude.Methods.{Exec, ◌>>=◌, ◌>>◌}
use rola.Keying.{logical_atoms}
use rola.Rules.{placed}
use rola.Extents.{ExtentAllocator}
use rola.Extents.Take.{Taken, take_cases}
use rola.Vmm.Growth.{grow_covers}
use rola.Arena.{Backing, dense, vmm, Arena, mapped_of, took, take_slots, grow_backing, commit}
use rola.Arena.Invariant.{Backs, IsSized}

module _ {ℓ} {P : Type ℓ} where
  -- A commitment within the dense limit succeeds: the backing then maps every slot below the cursor.
  grow_backing_lem :
      (b : Backing) (a : Arena P) (limit n : ℕ)
      → Backs b limit
      → n ≤ limit
      → (b' : Backing) × (grow_backing b n (record a { backing = b })
          ≡ (ok tt, record a { backing = b' }))
        × Backs b' limit
        × (n ≤ mapped_of b' limit)
  unfolding grow_backing mapped_of
  grow_backing_lem dense a limit n v le = (dense, refl, tt, le)
  grow_backing_lem (vmm owner) a limit n v le =
      let (o', e, covers, mono, valid, same) = grow_covers owner n v.0 (omega arith) in
      (vmm o', rw e, (valid, same ∙ v.1), covers)

  -- What the reservation of `n` slots comes to, before the continuation `k` runs.
  pub data Reserved {κ} {B : Type κ} (a : Arena P) (n : ℕ) (k : ℕ → Exec (Arena P) B)
      (out : Result B × Arena P) : Type (ℓ ⊔ κ) where
    refused :
        out ≡ (raised runtime_error, a)
        → a.allocator.capacity < placed a.allocator.next a.allocator.extent_atoms n + n
        → 0 < n
        → Reserved a n k out
    granted :
        (first : ℕ) (al : ExtentAllocator) (b : Backing)
        → out ≡ k first (record a { allocator = al; backing = b })
        → Taken a.allocator n first al
        → Backs b (logical_atoms a.keying)
        → al.next ≤ logical_atoms a.keying
        → al.next ≤ mapped_of b (logical_atoms a.keying)
        → Reserved a n k out

  pub reserve_cases {κ} :
      {B : Type κ} (a : Arena P) (n : ℕ) (k : ℕ → Exec (Arena P) B)
      → IsSized a
      → a.allocator.next ≤ logical_atoms a.keying
      → Reserved a n k ((take_slots n >>= λ first. commit >> k first) a)
  unfolding take_slots took commit
  reserve_cases a n k v le = elim (take_cases a.allocator n v.extent_pos) [
    | inl (e, room, wanted) ↦ refused (rw e) room wanted
    | inr (first, al, e, t) ↦
        let below : al.next ≤ logical_atoms a.keying = omega (arith, t.bounded, v.capacity) in
        let (b, run, backs, maps) =
          grow_backing_lem a.backing (record a { allocator = al }) _ al.next v.backs below in
        granted first al b (rw (e, run)) t backs below maps
  ]
