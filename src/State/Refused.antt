-- ===== src/State/Refused.antt =====
-- A call that is refused, and what it leaves of the state.

use rola.Prelude.{
  Bool, List, Option, Result, false, inl, inr, not, ok, raised, refl, refuse_if, some, true,
  value_error, ℕ, ◌*◌, ◌==◌, ◌>>◌, ◌≡◌, ◌≤◌, ◌⊎◌,
}
use rola.Extents.{ExtentAllocator}
use rola.Arena.{Arena}
use rola.Arena.Starved.{Starved}
use text.Mathlib.Text.{◌==◌ as str_eq}
use rola.State.{widths_eq, StateFormat, Routes, format_of, check}
use rola.State.Format.{check_iff}
use rola.State.Carried.{Driver, CarriedArena, RolaState, bound, bind_or_agree, agree, present_or}
use rola.State.Entry.{kernel_entry}

-- `check` raises nothing but ValueError.
abbrev IsVerdict : Result (Unit {0}) → Type 0
IsVerdict r = (r ≡ ok tt) ⊎ (r ≡ raised value_error)

step :
    (bad : Bool) {rest : Result (Unit {0})}
    → IsVerdict rest
    → IsVerdict (refuse_if bad value_error >> rest)
step true v = inr refl
step false v = v

check-cases : (mine theirs : StateFormat) → IsVerdict (check mine theirs)
unfolding check
check-cases mine theirs = step (not (mine.depth == theirs.depth)) (
    step (not (widths_eq mine.widths theirs.widths)) (
      step (not (str_eq mine.order theirs.order)) (
        step (not (mine.page_bits == theirs.page_bits)) (
          step (not (mine.dv == theirs.dv))
            (step (not (str_eq mine.dtype theirs.dtype)) (last (not (mine.ids == theirs.ids))))))))
  where
    last : (bad : Bool) → IsVerdict (refuse_if bad value_error)
    last true = inr refl
    last false = inl refl

check_refuses :
    (mine theirs : StateFormat) → ¬ (mine ≡ theirs) → check mine theirs ≡ raised value_error
check_refuses mine theirs differ = elim (check-cases mine theirs) [
  | inl same ↦ absurd (differ ((check_iff mine theirs).0 same))
  | inr refused ↦ refused
]

-- What a plan that raises leaves of an arena that it continues.
data KeptPages {ℓ} {P : Type ℓ} (a a' : Arena P) : Type ℓ where
  same_pages : a' ≡ a → KeptPages a a'
  cursor_moved :
      (al : ExtentAllocator)
      → a' ≡ record a { allocator = al }
      → a.allocator.next ≤ al.next
      → Starved a.backing al.next
      → KeptPages a a'

module _ {ℓ κ} {P : Type ℓ} {Q : Type κ} where
  -- The storage of `t` is that of `s`; or it is but for the cursor of the arena, which is past
  -- where it was, and the driver does not map a growth to it.
  pub data KeptStorage (s t : RolaState P Q) : Type (ℓ ⊔ κ) where
    same_storage : t.arena ≡ s.arena → t.plane ≡ s.plane → KeptStorage s t
    cursor_alone :
        (c : CarriedArena P) (al : ExtentAllocator)
        → s.arena ≡ some c
        → t.arena ≡ some (record c { pages = record c.pages { allocator = al } })
        → t.plane ≡ s.plane
        → c.pages.allocator.next ≤ al.next
        → Starved c.pages.backing al.next
        → KeptStorage s t

module _ {ℓ κ} {P : Type ℓ} {Q : Type κ} (zeros unset : P) (driver : Driver) where
  -- A call whose descriptor is not the one that the state was bound with raises ValueError, and
  -- the state is as it was.
  pub kernel_entry_disagrees :
      (routes : Routes) (bits : Option (List ℕ)) (d_v : ℕ) (paging : Bool) (bc : ℕ)
      (s : RolaState P Q) (f g : StateFormat)
      → bound s ≡ true
      → s.format ≡ some f
      → format_of routes d_v (routes.batch * routes.heads) ≡ ok g
      → ¬ (f ≡ g)
      → kernel_entry zeros unset driver routes bits d_v paging bc s ≡ (raised value_error, s)
  unfolding kernel_entry bind_or_agree agree present_or
  kernel_entry_disagrees routes bits d_v paging bc s f g is_bound named presents differ =
      rw (presents, is_bound, named, check_refuses f g differ) refl
