-- ===== src/Extents/Take.antt =====
-- `ExtentAllocator.take`: what a run that is granted leaves, and when one is.
use rola.Prelude.{arith, inl, inr, ok, raised, runtime_error, ℕ, ◌+◌, ◌<◌, ◌≡◌, ◌≤◌, ◌⊎◌}
use rola.Rules.{placed}
use rola.Rules.Placement.{admission_cases}
use rola.Extents.{ExtentAllocator, advance, take}

-- The cursor stands at the end of the run, which starts at or after the old cursor.
pub record Taken (al : ExtentAllocator) (n first : ℕ) (al' : ExtentAllocator) : Type 0 where
  pub start : al.next ≤ first
  pub lands : first ≡ placed al.next al.extent_atoms n
  pub finish : al'.next ≡ first + n
  pub bounded : al.next ≤ al.capacity → al'.next ≤ al.capacity
  pub near : al'.next ≤ al.next + n + al.extent_atoms
  pub same_capacity : al'.capacity ≡ al.capacity
  pub same_extent : al'.extent_atoms ≡ al.extent_atoms

-- `take` refuses for want of room, and has moved nothing, or returns a run as above.
pub take_cases :
    (al : ExtentAllocator) (n : ℕ)
    → 0 < al.extent_atoms
    → ((take al n ≡ raised runtime_error)
        × (al.capacity < placed al.next al.extent_atoms n + n)
        × (0 < n))
      ⊎ ((first : ℕ) × (al' : ExtentAllocator) × (take al n ≡ ok (first, al'))
          × Taken al n first al')
unfolding take
take_cases al n pos = elim (admission_cases al.next al.capacity al.extent_atoms n pos) [
  | inl (e, room, some_wanted) ↦ inl (rw e, room, some_wanted)
  | inr (first, e, le, lt, fits, none_wanted, lands) ↦
      inr (first, (advance al n first).1, rw e, ground arith)
]
