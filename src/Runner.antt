-- ===== src/Runner.antt =====
-- rola/engine/runner.py: declared nodes, the structural check of a DAG, and the walk. A Python object
-- is a value of a type `V` with what the walk asks of one; a node's function is a parameter of the
-- node, and may raise. The NVTX ranges leave no trace.
pub mod Names
pub mod Complete
pub mod Memo
pub mod Supplied
pub mod Honest
mod Tests
use text.Mathlib.Text.{◌==◌ as str_eq}
use Prim.Native.String.{String}
use rola.Prelude.{
  Bool, List, Option, Result, [], false, if◌then◌else◌, key_error, length, ltb, none, not, ok,
  raised, refuse_if, runtime_error, some, true, type_error, value_error, ℕ, ◌&&◌, ◌++◌, ◌+◌, ◌==◌,
  ◌>>=◌, ◌>>◌, ◌||◌, ◌∷◌,
}
use rola.Prelude.Methods.{Exec, then_run, lift}
use rola.Rules.{Mask}

-- What the walk asks of Python's objects: None and the test for it, `in` for a tuple of masks, the
-- items that `zip` draws from one, and the equality by which a dictionary finds a key.
pub record Objects {ℓ} (V : Type ℓ) : Type ℓ where
  pub null : V
  pub is_null : V → Bool
  pub in_masks : V → List Mask → Bool
  pub items : V → Option (List V)
  pub same : V → V → Bool

pub data Stream : Type 0 where
  host main side : Stream

-- The fact bag, a dictionary.
abbrev pub Facts {ℓ} : Type ℓ → Type ℓ
Facts V = List (String × V)

module _ {ℓ} {V : Type ℓ} where
  unfoldable pub find : String → Facts V → Option V
  find k [] = none
  find k ((j, v) ∷ f) = if str_eq j k then some v else find k f

  -- `facts[k] = v`
  unfoldable pub store : String → V → Facts V → Facts V
  store k v [] = (k, v) ∷ []
  store k v ((j, w) ∷ f) = if str_eq j k then (j, v) ∷ f else (j, w) ∷ store k v f

  unfoldable pub holds : String → Facts V → Bool
  unfolding find
  holds k f = elim (find k f) [ none ↦ false | some v ↦ true ]

  -- `facts.update(dict(zip(gives, produced)))`
  unfoldable pub store_all : List String → List V → Facts V → Facts V
  unfolding store
  store_all [] vs f = f
  store_all (k ∷ ks) [] f = f
  store_all (k ∷ ks) (v ∷ vs) f = store_all ks vs (store k v f)

  -- `facts.update({name: None for name in gives if name not in facts})`
  unfoldable pub store_missing : V → List String → Facts V → Facts V
  unfolding store holds
  store_missing null [] f = f
  store_missing null (k ∷ ks) f = store_missing null ks (if holds k f then f else store k null f)

  -- `all(name in facts for name in names)`
  unfoldable pub holds_all : List String → Facts V → Bool
  unfolding holds
  holds_all [] f = true
  holds_all (k ∷ ks) f = holds k f && holds_all ks f

pub record Node {ℓ} (V : Type ℓ) : Type ℓ where
  pub fn : Facts V → Result V
  pub name : String
  pub gives : List String
  pub needs : List String
  pub stream : Stream
  pub masks : List Mask
  pub waits : List String
  pub host_sync : Bool
  pub pure_of : List String
  pub per_state : Bool
  pub capturable : Bool
  pub reference_only : Bool

unfoldable pub member : String → List String → Bool
member k [] = false
member k (n ∷ ns) = str_eq n k || member k ns

unfoldable pub subset : List String → List String → Bool
unfolding member
subset [] ns = true
subset (k ∷ ks) ns = member k ns && subset ks ns

unfoldable pub is_empty {ℓ} : {A : Type ℓ} → List A → Bool
is_empty [] = true
is_empty (x ∷ xs) = false

module _ {ℓ} {V : Type ℓ} where
  -- `declare` in `node`, on a node with the fields as given; a `Stream` is one of `_STREAMS`.
  pub declare : Node V → Result (Node V)
  unfolding member subset
  declare n =
      if n.per_state && not (member "state" n.needs)
      then raised value_error
      else if not (subset n.pure_of n.needs)
      then raised value_error
      else if n.capturable && n.host_sync
      then raised value_error
      else ok n

  -- The loop of `validate_dag`.
  unfoldable pub check_needs : List (Node V) → List String → Result (Unit {0})
  unfolding subset
  check_needs [] available = ok tt
  check_needs (n ∷ dag) available =
      let rest = check_needs dag (available ++ n.gives) in
      if subset n.needs available then rest else raised value_error

  unfoldable pub count_nodes : (Node V → Bool) → List (Node V) → ℕ
  count_nodes p [] = 0
  count_nodes p (n ∷ dag) = (if p n then 1 else 0) + count_nodes p dag

  -- `validate_dag`
  unfoldable pub validate_dag : List (Node V) → List String → Result (Unit {0})
  unfolding check_needs count_nodes is_empty
  validate_dag dag seeds = do
    check_needs dag seeds
    refuse_if (ltb 1 (count_nodes (λ n. not (is_empty n.waits)) dag)) value_error
    refuse_if (ltb 1 (count_nodes (λ n. n.host_sync) dag)) value_error
    refuse_if (ltb 0 (count_nodes (λ n. n.reference_only) dag)) value_error

  -- `validate_capturable`
  pub validate_capturable : List (Node V) → Result (Unit {0})
  unfolding count_nodes
  validate_capturable dag = refuse_if (ltb 0 (count_nodes (λ n. not n.capturable) dag)) value_error

-- An entry of a node's memo. The key of a `per_state` node begins with the state.
pub record Entry {ℓ} (V : Type ℓ) : Type ℓ where
  pub node : String
  pub key : List V
  pub value : V

-- What the walk changes: the bag, and the memos of the nodes.
pub record Walk {ℓ} (V : Type ℓ) : Type ℓ where
  pub facts : Facts V
  pub memo : List (Entry V)

module _ {ℓ} {V : Type ℓ} where
  -- `tuple(facts[name] for name in names)`
  unfoldable pub read_all : List String → Facts V → Result (List V)
  unfolding find
  read_all [] f = ok []
  read_all (k ∷ ks) f = elim (find k f) [
    | none ↦ raised key_error
    | some v ↦ read_all ks f >>= λ vs. ok (v ∷ vs)
  ]

  -- The names of a node's memo key.
  unfoldable pub key_names : Node V → List String
  key_names n = if n.per_state then "state" ∷ n.pure_of else n.pure_of

  -- `table(facts)` is not None.
  unfoldable pub is_cached : Node V → Bool
  unfolding is_empty
  is_cached n = n.per_state || not (is_empty n.pure_of)

module _ {ℓ} {V : Type ℓ} (o : Objects V) where
  unfoldable pub same_all : List V → List V → Bool
  same_all [] [] = true
  same_all (x ∷ xs) (y ∷ ys) = o.same x y && same_all xs ys
  same_all _ _ = false

  unfoldable pub recall : String → List V → List (Entry V) → Option V
  unfolding same_all
  recall name key [] = none
  recall name key (e ∷ memo) =
      if str_eq e.node name && same_all e.key key then some e.value else recall name key memo

  -- `produced = step(facts)`, kept under the key where the node is cached.
  unfoldable pub remember : Node V → List V → Result V → Exec (Walk V) V
  remember n key (ok v) w = (
    ok v,
    if is_cached n
        then record w { memo = record { node = n.name; key = key; value = v } ∷ w.memo }
        else w,
  )
  remember n key (raised e) w = (raised e, w)

  unfoldable pub call : Node V → List V → Exec (Walk V) V
  unfolding remember is_cached
  call n key w = remember n key (n.fn w.facts) w

  unfoldable pub recalled : Node V → List V → Option V → Exec (Walk V) V
  unfolding call
  recalled n key (some v) w = (ok v, w)
  recalled n key none w = call n key w

  unfoldable pub produce : Node V → Exec (Walk V) V
  unfolding key_names is_cached recall recalled
  produce n w =
      then_run (lift (read_all (key_names n) w.facts) w)
        λ key. recalled n key (if is_cached n then recall n.name key w.memo else none)

  -- What a produced object adds to the bag.
  unfoldable pub spread : List String → V → Facts V → Result (Facts V)
  unfolding store store_all
  spread [] v f = ok f
  spread (k ∷ []) v f = ok (store k v f)
  spread (k ∷ j ∷ ks) v f = elim (o.items v) [
    | none ↦ raised type_error
    | some vs ↦
        if length vs == length (k ∷ j ∷ ks)
        then ok (store_all (k ∷ j ∷ ks) vs f)
        else raised value_error
  ]

  unfoldable pub spread_into : Result (Facts V) → Exec (Walk V) (Unit {0})
  spread_into (ok f) w = (ok tt, record w { facts = f })
  spread_into (raised e) w = (raised e, w)

  -- `mask is not None and mask not in step.masks`
  unfoldable pub is_masked : Node V → Facts V → Bool
  unfolding find
  is_masked n f = elim (find "mask" f) [
    | none ↦ false
    | some m ↦ not (o.is_null m) && not (o.in_masks m n.masks)
  ]

  -- The body of the loop of `run`.
  unfoldable pub walk_node : Node V → Exec (Walk V) (Unit {0})
  unfolding is_masked store_missing holds_all is_empty produce spread_into
  walk_node n w =
      if is_masked n w.facts
      then (ok tt, record w { facts = store_missing o.null n.gives w.facts })
      else if not (is_empty n.gives) && holds_all n.gives w.facts
      then (ok tt, w)
      else if not (holds_all n.needs w.facts)
      then (raised runtime_error, w)
      else then_run (produce n w) λ v u. spread_into (spread n.gives v u.facts) u

  -- `run`
  unfoldable pub run : List (Node V) → Exec (Walk V) (Unit {0})
  unfolding walk_node
  run [] w = (ok tt, w)
  run (n ∷ dag) w = then_run (walk_node n w) λ _ u. run dag u
