-- ===== src/Call/Context.antt =====
-- `ChunkContext` and `validate_context` of rola/engine/dags/chunk_dag.py. What is asked of a device is
-- whether it is a CUDA one.
use rola.Prelude.{
  Bool, List, Option, Result, [], attribute_error, get_or, if◌then◌else◌, index_error, length, none,
  not, ok, raised, refuse_if, some, type_error, value_error, ℕ, ◌==◌, ◌>>=◌, ◌>>◌, ◌∷◌,
}
use Prim.Native.String.{String}
use rola.Padding.{tuple_eq}
use rola.Rules.{Row}
use rola.Runner.{subset}
use rola.Routing.{LevelRouting}
use rola.Routing.Decay.{Dial, validate_against}
use rola.Routing.Descriptor.{TensorFacts}
use rola.Routing.Factors.{Entry, RouteFactors, prefix_of}
use rola.Call.{Flags, operands_of, requires_backward, require_envelope}

-- `SUPPLIABLE`
abbrev pub suppliable : List String
suppliable = "routes" ∷ "read_plane" ∷ "write_plane" ∷ "g_write" ∷ "read_mass" ∷ []

-- What the argument `state` holds: None, a RoLAState, or anything else.
pub data StateArgument {ℓ} (S : Type ℓ) : Type ℓ where
  absent foreign : StateArgument S
  carried : S → StateArgument S

-- The fields that the checks read; `routes` is none where it is no RouteFactors.
pub record ChunkContext {ℓ} (S : Type ℓ) : Type ℓ where
  pub routes : Option RouteFactors
  pub v : Entry
  pub decay : Option (List Dial)
  pub state : StateArgument S
  pub supplied : List String
  pub flags : Flags

-- `read[0]` and `topology` of a bundle: an empty tuple has no first, and an object that is no
-- tensor, or no Topology, not the attributes read here.
unfoldable pub first_of : List Entry → Result TensorFacts
first_of [] = raised index_error
first_of (Entry.missing ∷ entries) = raised attribute_error
first_of (Entry.foreign ∷ entries) = raised attribute_error
first_of (Entry.tensor t ∷ entries) = ok t

unfoldable pub levels_of : Option (List LevelRouting) → Result (List LevelRouting)
levels_of none = raised attribute_error
levels_of (some levels) = ok levels

-- `v` is a tensor of four dimensions.
unfoldable pub value_of : Entry → Result TensorFacts
value_of Entry.missing = raised value_error
value_of Entry.foreign = raised value_error
value_of (Entry.tensor t) = if length t.shape == 4 then ok t else raised value_error

unfoldable pub check_value : TensorFacts → TensorFacts → Result (Unit {0})
unfolding tuple_eq prefix_of
check_value t first = do
  refuse_if (not (tuple_eq (prefix_of t) (prefix_of first))) value_error
  refuse_if (not (t.device == first.device)) value_error

unfoldable pub check_decay : Option (List Dial) → List LevelRouting → Result (Unit {0})
unfolding validate_against
check_decay none levels = ok tt
check_decay (some dials) levels = validate_against dials levels

unfoldable pub state_of {ℓ} : {S : Type ℓ} → StateArgument S → Result (Option S)
state_of absent = ok none
state_of foreign = raised type_error
state_of (carried s) = ok (some s)

unfoldable pub routes_of : Option RouteFactors → Result RouteFactors
routes_of none = raised type_error
routes_of (some r) = ok r

module _ {ℓ} {S : Type ℓ} (cuda : ℕ → Bool) (manifest : List Row) (enabled : Bool) where
  -- The last check of `validate_context`, behind those of the types.
  unfoldable pub check_envelope :
      ChunkContext S → List LevelRouting → TensorFacts → TensorFacts → Result (Unit {0})
  unfolding state_of require_envelope requires_backward operands_of
  check_envelope ctx levels t first = do
    state ← state_of ctx.state
    require_envelope manifest levels (cuda first.device) (get_or t.shape 3 0) ctx.decay
        (requires_backward enabled (operands_of ctx.flags)) state

  -- `validate_context`
  unfoldable pub validate_context : ChunkContext S → Result (Unit {0})
  unfolding subset routes_of value_of first_of check_value levels_of check_decay check_envelope
  validate_context ctx = do
    refuse_if (not (subset ctx.supplied suppliable)) value_error
    r ← routes_of ctx.routes
    t ← value_of ctx.v
    first ← first_of r.read
    check_value t first
    levels ← levels_of r.topology
    check_decay ctx.decay levels
    check_envelope ctx levels t first
