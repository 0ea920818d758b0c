-- ===== src/Rules.antt =====
-- rola/engine/types.py and rola/engine/rules/: the engine's value types, and the rules that fold
-- the facts of one call into decisions. A refusal sentence is a constructor of `Refusal`, and a
-- presence fact ("is not None") is the option itself.
pub mod Placement
pub mod RunTable
pub mod Envelope
mod Tests
use Prim.Native.Nat.{bit_or}
use rola.Prelude.{
  Bool, List, Option, Result, [], false, if◌then◌else◌, index_error, is_some, length, ltb, max,
  none, not, ok, raised, runtime_error, some, suc, true, type_error, value_error, zero, ℕ, ◌%◌,
  ◌&&◌, ◌+◌, ◌-◌, ◌/◌, ◌==◌, ◌>>=◌, ◌^◌, ◌||◌, ◌∷◌,
}

-- `Mask`
pub data Mask : Type 0 where
  m1 m2 m3 m4 : Mask

-- `Arm`
pub record Arm : Type 0 where
  pub c : ℕ
  pub bc : ℕ

-- `CallClass`
pub record CallClass : Type 0 where
  pub state_in : Bool
  pub state_out : Bool
  pub paged : Bool
  pub grad : Bool

-- `PlanOverrides`
pub record PlanOverrides : Type 0 where
  pub paging : Option Bool

-- What its `paging` can be given: None, a bool, or anything else.
pub data PagingValue : Type 0 where
  unset : PagingValue
  flag : Bool → PagingValue
  neither : PagingValue

-- `PlanOverrides.__post_init__`
pub plan_overrides : PagingValue → Result PlanOverrides
plan_overrides neither = raised type_error
plan_overrides (flag true) = raised value_error
plan_overrides (flag false) = ok (record { paging = some false })
plan_overrides unset = ok (record { paging = none })

-- What the `expert` argument can hold.
pub data Expert : Type 0 where
  absent : Expert
  overrides : PlanOverrides → Expert
  other : Expert

-- `PlanOverrides.of`
pub plan_overrides_of : Expert → Result PlanOverrides
plan_overrides_of absent = raised type_error
plan_overrides_of (overrides o) = ok o
plan_overrides_of other = raised type_error

is_not_false : Option Bool → Bool
is_not_false (some false) = false
is_not_false _ = true

-- `paging_preference`
unfoldable pub paging_preference : Expert → Result Bool
unfolding is_not_false plan_overrides_of
paging_preference absent = ok true
paging_preference expert = plan_overrides_of expert >>= λ o. ok (is_not_false o.paging)

-- `mask`
unfoldable pub mask : CallClass → Mask
mask c = if c.state_in || c.state_out || c.paged then Mask.m2 else Mask.m1

-- `decode_mask`
pub decode_mask : Bool → Mask
decode_mask paged = if paged then Mask.m4 else Mask.m3

-- One row of the manifest: the built arm `(c, bc)` at depth `d` and width `b`.
pub record Row : Type 0 where
  pub c : ℕ
  pub bc : ℕ
  pub d : ℕ
  pub b : ℕ

-- `CHUNK_TOKENS` (`_PIN_C`) and `_PIN_BC`
abbrev pub pin_c : ℕ
pin_c = 32

abbrev pub pin_bc : ℕ
pin_bc = 128

-- The `bcs` of `arm`.
pub built_bcs : ℕ → ℕ → List Row → List ℕ
built_bcs depth width [] = []
built_bcs depth width (r ∷ rows) =
    if r.d == depth && r.b == width && r.c == pin_c
    then r.bc ∷ built_bcs depth width rows
    else built_bcs depth width rows

pub contains : ℕ → List ℕ → Bool
contains a [] = false
contains a (x ∷ xs) = a == x || contains a xs

pub maximum : List ℕ → ℕ
maximum [] = 0
maximum (x ∷ xs) = max x (maximum xs)

pick_bc : List ℕ → Option Arm
pick_bc [] = none
pick_bc bcs = some (record { c = pin_c; bc = if contains pin_bc bcs then pin_bc else maximum bcs })

-- `arm`; `widths[0]` of an empty tuple is an IndexError.
unfoldable pub arm : List ℕ → List Row → Result (Option Arm)
unfolding pick_bc built_bcs contains maximum
arm [] manifest = raised index_error
arm (width ∷ rest) manifest = ok (pick_bc (built_bcs (length (width ∷ rest)) width manifest))

pub data Refusal : Type 0 where
  value_width decay_unbuilt mixed_widths no_built_arm : Refusal
  unratified_activations not_cuda stateful_training : Refusal

-- `len(set(widths)) == 1`
pub is_uniform : List ℕ → Bool
is_uniform [] = false
is_uniform (w ∷ []) = true
is_uniform (w ∷ v ∷ ws) = w == v && is_uniform (v ∷ ws)

module _ {ℓ} {A : Type ℓ} where
  -- `arm_envelope`
  unfoldable pub arm_envelope : List ℕ → ℕ → Option A → Option Arm → Option Refusal
  unfolding is_uniform
  arm_envelope widths d_v decay built =
      if not (d_v == 64)
      then some value_width
      else if is_some decay
      then some decay_unbuilt
      else if not (is_uniform widths)
      then some mixed_widths
      else if not (is_some built)
      then some no_built_arm
      else none

  -- `training_envelope`
  unfoldable pub training_envelope : Bool → Option A → Option Refusal
  training_envelope grad state = if grad && is_some state then some stateful_training else none

-- `envelope`: the unratified activations' names, and whether the device is a CUDA one.
unfoldable pub envelope {ℓ} : {A : Type ℓ} → List A → Bool → Option Refusal
envelope [] cuda = if cuda then none else some not_cuda
envelope (a ∷ names) cuda = some unratified_activations

-- `(-a) % e`, for a positive `e`
abbrev pub neg_mod : ℕ → ℕ → ℕ
neg_mod a e = (e - a % e) % e

-- `first` in `admission`: where a run of `count` slots lands.
unfoldable pub placed : ℕ → ℕ → ℕ → ℕ
placed allocated extent_atoms count =
    let remainder = neg_mod allocated extent_atoms in
    if not (remainder == 0) && ltb remainder count then allocated + remainder else allocated

-- `admission`; a count is a number of list elements, so it is at least 0.
unfoldable pub admission : ℕ → ℕ → ℕ → ℕ → Result ℕ
unfolding placed
admission allocated capacity extent_atoms count =
    if count == 0
    then ok allocated
    else if ltb capacity (placed allocated extent_atoms count + count)
    then raised runtime_error
    else ok (placed allocated extent_atoms count)

-- The liveness byte's bits R, W and S, and `run` in the loop of `run_table`.
pub bit : ℕ → ℕ → Bool
bit v k = v / 2 ^ k % 2 == 1

pub must_run : Bool → Bool → Bool → ℕ → Bool
unfolding bit
must_run carries_in stores_out paged v =
    let run = bit v 0 && (bit v 1 || (carries_in && (if paged then bit v 2 else true))) in
    if stores_out then run || bit v 1 else run

-- `for v in range(8)`: `n` rounds are left, and `table` is the word so far.
pub table_from : Bool → Bool → Bool → ℕ → ℕ → ℕ → ℕ
unfolding must_run
table_from carries_in stores_out paged v zero table = table
table_from carries_in stores_out paged v (suc n) table =
    table_from carries_in stores_out paged (suc v) n
      (if must_run carries_in stores_out paged v then bit_or table (2 ^ v) else table)

-- `run_table`
pub run_table {ℓ} : {A : Type ℓ} → Option A → Option A → Option A → ℕ
unfolding table_from
run_table state_in state_out page_table =
    table_from (is_some state_in) (is_some state_out) (is_some page_table) 0 8 0
