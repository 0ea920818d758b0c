-- ===== src/State/Clone.antt =====
-- rola/_state.py `RoLAState.clone`, and the copy of the pages that it makes.
use Prim.Native.String.{String}
use rola.Prelude.{
  Bool, List, Option, Result, [], get_elem?, if◌then◌else◌, index_error, length, ltb, map, min,
  none, not, ok, raised, set, some, true, ℕ, ◌>>=◌, ◌∷◌,
}
use rola.Keying.{atoms_per_bh}
use rola.Arena.{Arena, Bitmap, is_absent, mapped_pages, plan_exact}
use rola.Arena.Create.{constructed}
use rola.State.Carried.{CarriedArena, Driver, RolaState, rola_state, bound, new_arena, present_or}

-- `table >= 0`
unfoldable pub present : List (Option ℕ) → List Bool
unfolding is_absent
present table = map (λ t. not (is_absent t)) table

-- `table[mask]`
unfoldable pub masked : List Bool → List (Option ℕ) → List (Option ℕ)
masked [] table = []
masked (b ∷ mask) [] = []
masked (b ∷ mask) (t ∷ table) = let rest = masked mask table in if b then t ∷ rest else rest

module _ {ℓ} {P : Type ℓ} where
  -- The page at an index of `state`, which is bounded to the mapped prefix; -1 is no index.
  unfoldable pub page_at : ℕ → List P → Option ℕ → Result P
  unfolding present_or
  page_at limit pages none = raised index_error
  page_at limit pages (some slot) =
      if ltb slot limit then present_or index_error (get_elem? pages slot) else raised index_error

  -- `state.index_select(0, slots)`
  unfoldable pub index_select : ℕ → List P → List (Option ℕ) → Result (List P)
  unfolding page_at
  index_select limit pages [] = ok []
  index_select limit pages (slot ∷ slots) = do
    page ← page_at limit pages slot
    rest ← index_select limit pages slots
    ok (page ∷ rest)

  -- `state.index_copy_(0, slots, from)`, the slots in order.
  unfoldable pub index_copy_pages : ℕ → List (Option ℕ) → List P → List P → Result (List P)
  index_copy_pages limit [] from pages = ok pages
  index_copy_pages limit (slot ∷ slots) [] pages = raised index_error
  index_copy_pages limit (none ∷ slots) (page ∷ from) pages = raised index_error
  index_copy_pages limit (some slot ∷ slots) (page ∷ from) pages =
      let rest = index_copy_pages limit slots from (set pages slot page) in
      if ltb slot limit then rest else raised index_error

  -- The bitmap of what an arena holds.
  unfoldable pub resident_bitmap : Arena P → Bitmap
  unfolding present
  resident_bitmap a = record {
    rows = a.keying.bh;
    columns = atoms_per_bh a.keying;
    bits = present a.page_table;
  }

  -- The extent of `state`, which is the plane up to its mapped prefix.
  unfoldable pub state_pages : Arena P → ℕ
  state_pages a = min (mapped_pages a) (length a.value_base)

  -- `arena.state.index_copy_(0, destination[present], self._arena.state.index_select(...))`
  unfoldable pub copied : Arena P → Arena P → Result (Arena P)
  unfolding present masked index_select index_copy_pages state_pages
  copied source arena = do
    pages ←
        index_select (state_pages source) source.value_base
          (masked (present source.page_table) source.page_table)
    base ←
        index_copy_pages (state_pages arena) (masked (present source.page_table) arena.page_table)
          pages arena.value_base
    ok (record arena { value_base = base })

  -- The plan of the copy's own arena, and the copy of its pages.
  unfoldable pub copy_arena : P → Arena P → Arena P → Result (Arena P)
  unfolding resident_bitmap copied
  copy_arena zeros source blank =
      constructed (plan_exact zeros (resident_bitmap source) true blank) >>= λ arena.
      copied source arena

module _ {ℓ κ} {P : Type ℓ} {Q : Type κ} where
  -- The fields that a copy of a bound state takes over.
  unfoldable pub adopted : RolaState P Q → RolaState P Q → RolaState P Q
  adopted s out = record out {
    shape = s.shape;
    device = s.device;
    paging = s.paging;
    format = s.format;
  }

module _ {ℓ κ} {P : Type ℓ} {Q : Type κ} (zeros unset : P) (driver : Driver) where
  -- A copy of the storage of a bound state, into a fresh one.
  unfoldable pub clone_into :
      Option (CarriedArena P) → Option Q → RolaState P Q → Result (RolaState P Q)
  unfolding new_arena copy_arena
  clone_into none plane out = ok (record out { plane = plane })
  clone_into (some carried) plane out = do
    made ← new_arena zeros unset driver carried.widths carried.bc out
    pages ← copy_arena zeros carried.pages made.pages
    ok (record out { arena = some (record made { pages = pages }) })

  -- `clone`
  unfoldable pub clone : Option String → RolaState P Q → Result (RolaState P Q)
  unfolding rola_state bound adopted clone_into
  clone strategy s = do
    out ← rola_state (elim strategy [ none ↦ s.strategy | some other ↦ other ]) s.pool_slack
    (if bound s then clone_into s.arena s.plane (adopted s out) else ok out)
