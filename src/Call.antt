-- ===== src/Call.antt =====
-- rola/engine/facts/call.py and rola/engine/facts/operands.py, the nodes classify_call, residency and
-- backing of rola/engine/facts/nodes.py, and the checks of a call in rola/engine/dags/chunk_dag.py.
use rola.Prelude.{
  Bool, List, Option, Result, [], false, if◌then◌else◌, is_some, map, none, not,
  not_implemented_error, ok, raised, some, true, ℕ, ◌++◌, ◌>>=◌, ◌>>◌, ◌||◌, ◌∷◌,
}
pub mod Context
pub mod Envelope
pub mod Band
pub mod Dag
pub mod Walk
pub mod Accepted
mod Tests
use Prim.Native.String.{String}
use rola.Padding.{tuple_eq}
use rola.Rules.{Mask, CallClass, Row, Refusal, mask, arm, arm_envelope, training_envelope, envelope}
use rola.Runner.{subset}
use rola.Routing.{LevelRouting, width_of, unratified_from}
use rola.Routing.Decay.{Dial, validate_against}
use rola.Routing.Descriptor.{TensorFacts}
use rola.Routing.Factors.{Entry, RouteFactors, prefix_of}

-- Whether each tensor of a call requires a gradient.
pub record Flags : Type 0 where
  pub v : Bool
  pub read : List Bool
  pub write : List Bool
  pub g_write : Bool
  pub read_mass : Option Bool
  pub dials : Option (List Bool)

-- `operands_of`, with `RouteFactors.tensors`
unfoldable pub operands_of : Flags → List Bool
operands_of f =
    f.v
    ∷ (f.read
        ++ (f.write
            ++ (f.g_write
                ∷ (elim f.read_mass [ none ↦ [] | some m ↦ m ∷ [] ]
                    ++ elim f.dials [ none ↦ [] | some ds ↦ ds ]))))

any_flag : List Bool → Bool
any_flag [] = false
any_flag (b ∷ bs) = b || any_flag bs

-- `requires_backward`, on tensors
unfoldable pub requires_backward : Bool → List Bool → Bool
unfolding any_flag
requires_backward enabled flags = if not enabled then false else any_flag flags

module _ {ℓ κ} {S : Type ℓ} {A : Type κ} where
  -- `classify_call`; `wants` is the state's `_wants_pages`
  unfoldable pub classify_call :
      (S → Bool → Bool) → Option A → Option S → Bool → Option A → Bool → Bool → CallClass
  classify_call wants given_state_in state want_state given_arena paging grad = record {
    state_in = is_some given_state_in || is_some state;
    state_out = want_state;
    paged = is_some given_arena || elim state [ none ↦ false | some s ↦ wants s paging ];
    grad = grad;
  }

  -- `residency`; `entry` is the state's `_kernel_entry`
  unfoldable pub residency :
      (S → Result (Option A × Option A))
      → Option A
      → Option S
      → Option A
      → Result (Option A × Option A)
  residency entry given_state_in none given_arena = ok (given_state_in, given_arena)
  residency entry given_state_in (some s) given_arena = entry s

-- What `backing` reads of an arena.
pub record ArenaPlanes {ℓ} (A : Type ℓ) : Type ℓ where
  pub page_table : A
  pub state : A

-- `backing`, which gives the page table and the plane that is stored; `fresh` is the new plane.
unfoldable pub backing {ℓ} :
    {A : Type ℓ} → A → Option (ArenaPlanes A) → Bool → Option A → Option A × Option A
backing fresh (some arena) want_state state_in =
    (some arena.page_table, if want_state then some arena.state else none)
backing fresh none false state_in = (none, none)
backing fresh none true none = (none, some fresh)
backing fresh none true (some plane) = (none, some plane)

-- `envelope_clauses` and `arm_refusal`; the manifest is the binary's `chunk_arms`.
unfoldable pub arm_refusal :
    List Row → List LevelRouting → Option (List Dial) → ℕ → Result (Option Refusal)
unfolding width_of
arm_refusal manifest levels decay d_v = do
  built ← arm (map width_of levels) manifest
  ok (arm_envelope (map width_of levels) d_v decay built)

-- `envelope_refusal`, of the value's width
unfoldable pub envelope_refusal :
    List Row → List LevelRouting → Bool → ℕ → Option (List Dial) → Result (Option Refusal)
unfolding arm_refusal unratified_from
envelope_refusal manifest levels cuda d_v decay = do
  unratified ← unratified_from 0 levels
  elim (envelope unratified cuda) [
    | some reason ↦ ok (some reason)
    | none ↦ arm_refusal manifest levels decay d_v
  ]

-- A refusal raises NotImplementedError, of which BackwardNotImplemented is a kind.
unfoldable pub refuse_for : Option Refusal → Result (Unit {0})
refuse_for none = ok tt
refuse_for (some reason) = raised not_implemented_error

-- `require_envelope`
unfoldable pub require_envelope {ℓ} :
    {S : Type ℓ}
    → List Row
    → List LevelRouting
    → Bool
    → ℕ
    → Option (List Dial)
    → Bool
    → Option S
    → Result (Unit {0})
unfolding envelope_refusal refuse_for
require_envelope manifest levels cuda d_v decay grad state = do
  refuse_for (training_envelope grad state)
  reason ← envelope_refusal manifest levels cuda d_v decay
  refuse_for reason
