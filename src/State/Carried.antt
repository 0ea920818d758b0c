-- ===== src/State/Carried.antt =====
-- rola/_state.py `RoLAState`. A dense plane is an element of a type `Q`, read and written whole; a
-- device is a handle, and what the driver says of it is a parameter. A tensor of atoms is the flat
-- list of its entries, which `reshape` takes if their number fits.
use Prim.Native.Nat.{bit_and}
use Prim.Native.String.{String}
use text.Mathlib.Text.{◌==◌ as str_eq}
use rola.Prelude.{
  Bool, Exception, List, Option, Result, attribute_error, if◌then◌else◌, is_some, length, map, none,
  not, not_implemented_error, ok, prod, raised, refuse_if, runtime_error, some, true, type_error,
  value_error, ℕ, ◌*◌, ◌+◌, ◌==◌, ◌>>=◌, ◌>>◌, ◌||◌,
}
use rola.Prelude.Methods.{Exec}
use rola.Keying.{AtomKeying, atom_keying, atoms_per_bh}
use rola.Vmm.{VmmProbe}
use rola.Arena.{Arena, Bitmap}
use rola.Arena.Create.{ArenaOptions, BackingChoice, Slack, page_arena}
use rola.State.{StateFormat, Routes, format_of, check}

-- `_BUILT_STRATEGY` and `_DESIGNED_STRATEGY`
abbrev pub built_strategy : String
built_strategy = "mutable"

abbrev pub designed_strategy : String
designed_strategy = "cow"

-- `ATOM_WRITTEN`, of rola/engine/facts/planes.py
abbrev pub atom_written : ℕ
atom_written = 1

-- What the driver says of a device.
pub record Driver : Type 0 where
  pub on_cuda : ℕ → Bool
  pub probe : ℕ → VmmProbe

-- `[B, H, N, cols]`
pub record Shape : Type 0 where
  pub batch : ℕ
  pub heads : ℕ
  pub n : ℕ
  pub cols : ℕ

-- An arena with the two arguments of its constructor that a clone reads back.
pub record CarriedArena {ℓ} (P : Type ℓ) : Type ℓ where
  pub widths : List ℕ
  pub bc : ℕ
  pub pages : Arena P

pub record RolaState {ℓ κ} (P : Type ℓ) (Q : Type κ) : Type (ℓ ⊔ κ) where
  pub strategy : String
  pub pool_slack : Slack
  pub shape : Option Shape
  pub device : Option ℕ
  pub paging : Bool
  pub arena : Option (CarriedArena P)
  pub plane : Option Q
  pub format : Option StateFormat

-- `(s_in, arena)` of `_kernel_entry`, where both are None if the state carries nothing, and the
-- arena alone is new.
pub data KernelEntry {ℓ κ} (P : Type ℓ) (Q : Type κ) : Type (ℓ ⊔ κ) where
  nothing_in : KernelEntry P Q
  fresh_arena : CarriedArena P → KernelEntry P Q
  arena_in : CarriedArena P → KernelEntry P Q
  plane_in : Q → KernelEntry P Q

-- `(plane, page_table, arena)` of `_decode_entry`.
pub data DecodeEntry {ℓ κ} (P : Type ℓ) (Q : Type κ) : Type (ℓ ⊔ κ) where
  paged_step : CarriedArena P → DecodeEntry P Q
  dense_step : Q → DecodeEntry P Q

-- The attribute of an object that may be None.
unfoldable pub present_or {ℓ} : {A : Type ℓ} → Exception → Option A → Result A
present_or e none = raised e
present_or e (some x) = ok x

-- `bits & ATOM_WRITTEN`, as a bool
unfoldable pub written_atoms : List ℕ → List Bool
written_atoms bits = map (λ b. not (bit_and b atom_written == 0)) bits

-- `.reshape(BH, atoms_per_bh)`
unfoldable pub reshaped : AtomKeying → List Bool → Result Bitmap
reshaped keying bits =
    if length bits == keying.bh * atoms_per_bh keying
    then ok (record { rows = keying.bh; columns = atoms_per_bh keying; bits = bits })
    else raised runtime_error

module _ {ℓ κ} {P : Type ℓ} {Q : Type κ} where
  -- The object that `__init__` makes.
  unfoldable pub unbound_state : String → Slack → RolaState P Q
  unbound_state strategy pool_slack = record {
    strategy = strategy;
    pool_slack = pool_slack;
    shape = none;
    device = none;
    paging = true;
    arena = none;
    plane = none;
    format = none;
  }

  -- `RoLAState.__init__`, which is all that `state` calls
  unfoldable pub rola_state : String → Slack → Result (RolaState P Q)
  unfolding unbound_state
  rola_state strategy pool_slack =
      if str_eq strategy designed_strategy
      then raised not_implemented_error
      else if not (str_eq strategy built_strategy)
      then raised value_error
      else ok (unbound_state strategy pool_slack)

  unfoldable pub bound : RolaState P Q → Bool
  bound s = is_some s.shape

  unfoldable pub paged : RolaState P Q → Bool
  paged s = is_some s.arena

  unfoldable pub carries : RolaState P Q → Bool
  carries s = is_some s.arena || is_some s.plane

  -- `_keying`
  unfoldable pub state_keying : RolaState P Q → Result AtomKeying
  unfolding present_or
  state_keying s = present_or type_error s.shape >>= λ shape.
      atom_keying shape.n shape.cols (shape.batch * shape.heads)

  -- `_wants_pages`
  unfoldable pub wants_pages : RolaState P Q → Bool → Bool
  unfolding bound
  wants_pages s paging = if bound s then s.paging else paging

  -- What the first call writes to the state.
  unfoldable pub bind : Routes → ℕ → Bool → StateFormat → RolaState P Q → RolaState P Q
  bind routes d_v paging presented s = record s {
    shape = some (record {
      batch = routes.batch;
      heads = routes.heads;
      n = prod routes.widths;
      cols = d_v + 1;
    });
    device = some routes.device;
    paging = paging;
    format = some presented;
  }

  -- `self._format.check(presented)`
  unfoldable pub agree : StateFormat → RolaState P Q → Result (Unit {0})
  unfolding present_or
  agree presented s = present_or attribute_error s.format >>= λ mine. check mine presented

  -- The if of `_kernel_entry` on `bound`.
  unfoldable pub bind_or_agree : Routes → ℕ → Bool → StateFormat → Exec (RolaState P Q) (Unit {0})
  unfolding bound bind agree
  bind_or_agree routes d_v paging presented s =
      if bound s then (agree presented s, s) else (ok tt, bind routes d_v paging presented s)

  -- `bitmap` in `_kernel_entry`
  unfoldable pub write_bitmap : Option (List ℕ) → RolaState P Q → Result (Option Bitmap)
  unfolding state_keying reshaped written_atoms
  write_bitmap none s = ok none
  write_bitmap (some bits) s = do
    keying ← state_keying s
    bitmap ← reshaped keying (written_atoms bits)
    ok (some bitmap)

  -- `_kernel_commit`
  unfoldable pub kernel_commit : Q → RolaState P Q → RolaState P Q
  kernel_commit new s =
      if is_some s.arena || is_some s.plane then s else record s { plane = some new }

  -- `_require_carrying`
  unfoldable pub require_carrying : RolaState P Q → Result (Unit {0})
  unfolding carries
  require_carrying s = refuse_if (not (carries s)) runtime_error

  -- The end of `_decode_entry`.
  unfoldable pub step_storage : Option (CarriedArena P) → Option Q → Result (DecodeEntry P Q)
  step_storage (some carried) plane = ok (paged_step carried)
  step_storage none (some plane) = ok (dense_step plane)
  step_storage none none = raised attribute_error

  -- `_decode_entry`
  unfoldable pub decode_entry : Routes → RolaState P Q → Result (DecodeEntry P Q)
  unfolding require_carrying present_or agree step_storage
  decode_entry routes s = do
    require_carrying s
    mine ← present_or attribute_error s.format
    shape ← present_or type_error s.shape
    presented ← format_of routes mine.dv (shape.batch * shape.heads)
    agree presented s
    step_storage s.arena s.plane

  -- A method of the carried arena, called from the state that owns it.
  unfoldable pub on_arena {μ} :
      {A : Type μ} → CarriedArena P → Exec (Arena P) A → Exec (RolaState P Q) A
  on_arena carried m s =
      let out = m carried.pages in
      (out.0, record s { arena = some (record carried { pages = out.1 }) })

-- The arguments that `_new_arena` calls `PageArena` with.
unfoldable pub arena_options : Driver → List ℕ → ℕ → AtomKeying → ℕ → Slack → ArenaOptions
arena_options driver widths bc keying device pool_slack = record {
  widths = widths;
  bc = bc;
  cols = keying.cols;
  bh = keying.bh;
  on_cuda = driver.on_cuda device;
  probe = driver.probe device;
  extent_atoms = none;
  backing = BackingChoice.auto;
  pool_slack = pool_slack;
}

-- `_new_arena`
unfoldable pub new_arena {ℓ κ} :
    {P : Type ℓ} {Q : Type κ}
    → P
    → P
    → Driver
    → List ℕ
    → ℕ
    → RolaState P Q
    → Result (CarriedArena P)
unfolding state_keying present_or arena_options
new_arena zeros unset driver widths bc s = do
  keying ← state_keying s
  device ← present_or type_error s.device
  pages ← page_arena zeros unset (arena_options driver widths bc keying device s.pool_slack)
  ok (record { widths = widths; bc = bc; pages = pages })
