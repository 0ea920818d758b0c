-- ===== src/Call/Dag.antt =====
-- `CHUNK_DAG` of rola/engine/dags/chunk_dag.py, with the declarations of its nodes in
-- rola/engine/facts/nodes.py and rola/engine/rules/. `body` gives the function of each node by its
-- name.
use rola.Prelude.{
  Bool, List, Result, [], false, key_error, none, ok, raised, some, true, ℕ, ◌>>◌, ◌∷◌,
}
use Prim.Native.String.{String}
use rola.Rules.{Mask, Row}
use rola.Runner.{Stream, Facts, Node, Objects, Walk, find, store_all, run}
use rola.Call.Context.{ChunkContext, validate_context}

-- `_SEEDS`
abbrev pub chunk_seeds : List String
chunk_seeds =
    "routes" ∷ "v" ∷ "decay" ∷ "state" ∷ "expert" ∷ "want_state" ∷ "given_state_in" ∷ "given_arena"
    ∷ []

module _ {ℓ} {V : Type ℓ} (body : String → Facts V → Result V) where
  -- `node` with its defaults, but for the stream.
  abbrev node_on : Stream → String → List String → List String → Node V
  node_on stream name gives needs = record {
    fn = body name;
    name = name;
    gives = gives;
    needs = needs;
    stream = stream;
    masks = Mask.m1 ∷ Mask.m2 ∷ [];
    waits = [];
    host_sync = false;
    pure_of = [];
    per_state = false;
    capturable = false;
    reference_only = false;
  }

  -- `rule`
  abbrev rule : String → String → List String → Node V
  rule name given needs =
      let n = node_on Stream.host name (given ∷ []) needs in record n { capturable = true }

  abbrev pub residency_node : Node V
  residency_node =
      let n = node_on Stream.side "residency" ("state_in" ∷ "arena" ∷ []) (
        "state" ∷ "given_state_in" ∷ "given_arena" ∷ "routes" ∷ "d_v" ∷ "atom_bits" ∷ "paging"
        ∷ "arm" ∷ []) in
      record n { masks = Mask.m2 ∷ []; host_sync = true }

  abbrev join_node : Node V
  join_node =
      let n = node_on Stream.main "join" [] ("arena" ∷ []) in
      record n { masks = Mask.m2 ∷ []; waits = "residency" ∷ [] }

  abbrev plan_node : Node V
  plan_node = node_on Stream.host "build_plan" ("plan" ∷ []) (
      "call_class" ∷ "arm" ∷ "widths" ∷ "d_v" ∷ "v" ∷ "v_packed" ∷ "routes" ∷ "read_plane"
      ∷ "write_plane" ∷ "g_write" ∷ "read_mass" ∷ "union_table" ∷ "block_bits" ∷ "page_table"
      ∷ "atom_bits" ∷ "state_in" ∷ "state_out" ∷ "run_table" ∷ [])

  -- `CHUNK_DAG`
  unfoldable pub chunk_dag : List (Node V)
  chunk_dag =
      rule "paging_preference" "paging" ("expert" ∷ [])
      ∷ node_on Stream.host "topology" ("widths" ∷ "d_v" ∷ []) ("routes" ∷ "v" ∷ [])
      ∷ node_on Stream.host "classify_call" ("call_class" ∷ []) (
          "routes" ∷ "v" ∷ "decay" ∷ "state" ∷ "given_state_in" ∷ "given_arena" ∷ "want_state"
          ∷ "paging" ∷ [])
      ∷ rule "mask" "mask" ("call_class" ∷ [])
      ∷ node_on Stream.host "manifest" ("manifest" ∷ []) []
      ∷ rule "arm" "arm" ("widths" ∷ "manifest" ∷ [])
      ∷ node_on Stream.main "pack_planes"
          ("read_plane" ∷ "write_plane" ∷ "g_write" ∷ "read_mass" ∷ []) ("routes" ∷ [])
      ∷ node_on Stream.main "pack_v" ("v_packed" ∷ []) ("v" ∷ [])
      ∷ node_on Stream.main "facts_tables" ("union_table" ∷ "atom_bits" ∷ [])
          ("read_plane" ∷ "write_plane" ∷ "arm" ∷ "widths" ∷ "mask" ∷ [])
      ∷ residency_node
      ∷ join_node
      ∷ node_on Stream.host "backing" ("page_table" ∷ "state_out" ∷ [])
          ("arena" ∷ "state_in" ∷ "want_state" ∷ "routes" ∷ "d_v" ∷ [])
      ∷ node_on Stream.main "block_bits" ("block_bits" ∷ [])
          ("union_table" ∷ "arm" ∷ "widths" ∷ "routes" ∷ "page_table" ∷ [])
      ∷ rule "run_table" "run_table" ("state_in" ∷ "state_out" ∷ "page_table" ∷ [])
      ∷ plan_node
      ∷ []

-- The seeds that the context holds, as objects.
pub record Seeds {ℓ} (V : Type ℓ) : Type ℓ where
  pub routes : V
  pub v : V
  pub decay : V
  pub state : V
  pub expert : V
  pub want_state : V
  pub given_state_in : V
  pub given_arena : V

module _ {ℓ} {V : Type ℓ} where
  unfoldable pub seed_facts : Seeds V → Facts V
  seed_facts s =
      ("routes", s.routes)
      ∷ ("v", s.v)
      ∷ ("decay", s.decay)
      ∷ ("state", s.state)
      ∷ ("expert", s.expert)
      ∷ ("want_state", s.want_state)
      ∷ ("given_state_in", s.given_state_in)
      ∷ ("given_arena", s.given_arena)
      ∷ []

  -- `[...]["plan"]`
  unfoldable pub plan_of : Result (Unit {0}) × Walk V → Result V
  unfolding find
  plan_of (raised e, w) = raised e
  plan_of (ok done, w) = elim (find "plan" w.facts) [ none ↦ raised key_error | some p ↦ ok p ]

  -- What the walk begins from: the bag of the seeds, with the names that the context supplies.
  abbrev pub chunk_walk {κ} :
      {S : Type κ} → ChunkContext S → (ChunkContext S → Seeds V) → List V → Walk V
  unfolding store_all seed_facts
  chunk_walk ctx seeds_of values = record {
    facts = store_all ctx.supplied values (seed_facts (seeds_of ctx));
    memo = [];
  }

  -- `build_chunk_plan`; `seeds_of` is what objects the context's fields are, and `values` are those
  -- of the names that it supplies.
  unfoldable pub build_chunk_plan {κ} :
      {S : Type κ}
      → (ℕ → Bool)
      → List Row
      → Bool
      → ChunkContext S
      → Objects V
      → (String → Facts V → Result V)
      → (ChunkContext S → Seeds V)
      → List V
      → Result V
  unfolding validate_context run chunk_dag store_all seed_facts plan_of
  build_chunk_plan cuda manifest enabled ctx o body seeds_of values =
      validate_context cuda manifest enabled ctx
      >> plan_of (run o (chunk_dag body) (chunk_walk ctx seeds_of values))
