-- ===== src/State/Entry.antt =====
-- rola/_state.py: the entry of a call into the state that it receives.
use rola.Prelude.{
  Bool, List, Option, Result, attribute_error, false, if◌then◌else◌, none, ok, raised,
  runtime_error, some, true, ℕ, ◌*◌,
}
use rola.Prelude.Methods.{Exec, ◌>>=◌, ◌>>◌, give, lift, then_run}
use rola.Arena.{Arena, Bitmap, plan_exact, reset, refill_pool as refill_arena}
use rola.State.{Routes, format_of}
use rola.State.Carried.{
  Driver, CarriedArena, RolaState, KernelEntry, nothing_in, fresh_arena, arena_in, plane_in,
  reshaped, state_keying, bind_or_agree, write_bitmap, new_arena, on_arena,
}

-- `plan_exact` with a bitmap that may be None, which has no shape to read.
unfoldable pub plan_optional {ℓ} :
    {P : Type ℓ} → P → Option Bitmap → Bool → Exec (Arena P) (Unit {0})
plan_optional zeros (some bitmap) fresh = plan_exact zeros bitmap fresh
plan_optional zeros none fresh = do
  if fresh then reset zeros else give tt
  lift (raised attribute_error)

module _ {ℓ κ} {P : Type ℓ} {Q : Type κ} where
  -- The answer of a plan: the entry with the state after it, or its exception with `before`.
  unfoldable pub settled :
      Result (Unit {0})
      → KernelEntry P Q
      → RolaState P Q
      → RolaState P Q
      → Result (KernelEntry P Q) × RolaState P Q
  settled (ok t) entry after before = (ok entry, after)
  settled (raised e) entry after before = (raised e, before)

module _ {ℓ κ} {P : Type ℓ} {Q : Type κ} (zeros : P) where
  -- A continuation: the union of what is resident and what is written.
  unfoldable pub continue_arena :
      CarriedArena P → Option Bitmap → Exec (RolaState P Q) (KernelEntry P Q)
  unfolding plan_optional settled
  continue_arena carried bitmap s =
      let out = plan_optional zeros bitmap false carried.pages in
      let after : CarriedArena P = record carried { pages = out.1 } in
      let t : RolaState P Q = record s { arena = some after } in settled out.0 (arena_in after) t t

  -- A first call that pages: the arena is the state's only once its plan has returned.
  unfoldable pub plan_first :
      CarriedArena P → Option Bitmap → Exec (RolaState P Q) (KernelEntry P Q)
  unfolding plan_optional settled
  plan_first made bitmap s =
      let out = plan_optional zeros bitmap true made.pages in
      let planned : CarriedArena P = record made { pages = out.1 } in
      settled out.0 (fresh_arena planned) (record s { arena = some planned }) s

  unfoldable pub admit_into : Option (CarriedArena P) → List Bool → Exec (RolaState P Q) (Unit {0})
  unfolding state_keying reshaped on_arena
  admit_into none bits s = (raised runtime_error, s)
  admit_into (some carried) bits s =
      (do
        keying ← lift (state_keying s)
        bitmap ← lift (reshaped keying bits)
        on_arena carried (plan_exact zeros bitmap false))
        s

  -- `_decode_entry_arena`, whose answer is the arena that the state then has.
  unfoldable pub decode_entry_arena : List Bool → Exec (RolaState P Q) (Unit {0})
  unfolding admit_into
  decode_entry_arena bits s = admit_into s.arena bits s

module _ {ℓ κ} {P : Type ℓ} {Q : Type κ} (zeros : P) where
  unfoldable pub refill_into : Option (CarriedArena P) → Exec (RolaState P Q) ℕ
  unfolding on_arena
  refill_into none s = (raised runtime_error, s)
  refill_into (some carried) s = on_arena carried (refill_arena zeros) s

  -- `refill_pool` of rola/engine/dags/decode_dag.py.
  unfoldable pub refill_pool : Exec (RolaState P Q) ℕ
  unfolding refill_into
  refill_pool s = refill_into s.arena s

module _ {ℓ κ} {P : Type ℓ} {Q : Type κ} (zeros unset : P) (driver : Driver) where
  -- The four cases at the end of `_kernel_entry`.
  unfoldable pub enter_by :
      Option (CarriedArena P)
      → Option Q
      → Bool
      → Routes
      → ℕ
      → Option Bitmap
      → Exec (RolaState P Q) (KernelEntry P Q)
  unfolding continue_arena plan_first new_arena
  enter_by (some carried) plane paging routes bc bitmap s = continue_arena zeros carried bitmap s
  enter_by none (some plane) paging routes bc bitmap s = (ok (plane_in plane), s)
  enter_by none none false routes bc bitmap s = (ok nothing_in, s)
  enter_by none none true routes bc bitmap s =
      then_run (new_arena zeros unset driver routes.widths bc s, s)
        (λ made. plan_first zeros made bitmap)

  unfoldable pub enter : Routes → ℕ → Option Bitmap → Exec (RolaState P Q) (KernelEntry P Q)
  unfolding enter_by
  enter routes bc bitmap s = enter_by s.arena s.plane s.paging routes bc bitmap s

  -- `_kernel_entry`
  unfoldable pub kernel_entry :
      Routes → Option (List ℕ) → ℕ → Bool → ℕ → Exec (RolaState P Q) (KernelEntry P Q)
  unfolding format_of bind_or_agree write_bitmap enter
  kernel_entry routes atom_bits d_v paging bc = do
    presented ← lift (format_of routes d_v (routes.batch * routes.heads))
    bind_or_agree routes d_v paging presented
    bitmap ← (λ s. (write_bitmap atom_bits s, s))
    enter routes bc bitmap
