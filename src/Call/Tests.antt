-- ===== src/Call/Tests.antt =====
-- A call over two softmax levels of 32 digits, on a device 0 that is a CUDA one, with an arm built for
-- them; and a call with a given plane.
use rola.Prelude.{
  All, Bool, Exception, List, Option, Result, [], false, if◌then◌else◌, none, ok, ok_injective,
  raised, refl, replicate, runtime_error, some, true, ℕ, ◌==◌, ◌↔◌, ◌∷◌, ◌≡◌, ◌⊎◌,
}
use rola.Rules.{Mask, Row, mask}
use rola.Routing.{Tag, LevelRouting, level_routing}
use rola.Routing.Constructed.{IsConstructed}
use rola.Routing.Descriptor.{Dtype}
use rola.Routing.Factors.{Entry, RouteFactors}
use rola.Call.{classify_call, residency, require_envelope}
use rola.Call.Envelope.{RunsHere, require_envelope_iff}
use rola.Call.Context.{StateArgument, ChunkContext, validate_context}
use rola.Call.Accepted.{IsAccepted, validate_context_iff}
use mathlib.Core.Path.{subst}
use Prim.Native.String.{String}
use text.Mathlib.Text.{◌==◌ as str_eq}
use rola.Runner.{Walk, find, holds, holds_all, walk_node, Facts, Objects, member}
use rola.Runner.Complete.{Fits}
use rola.Runner.Honest.{Raises}
use rola.Call.Dag.{chunk_walk, residency_node, Seeds, chunk_dag, build_chunk_plan}
use rola.Call.Walk.{Answers, build_chunk_plan_lem}
use rola.Call.Band.{is_among, Coding, coded, Leaves, walk_node-residency}

abbrev level : LevelRouting
level = LevelRouting.independent 32 Tag.softmax Tag.softmax

abbrev levels : List LevelRouting
levels = level ∷ []

level-IsConstructed : All IsConstructed (level ∷ levels)
unfolding level_routing
level-IsConstructed = (refl, (refl, tt))

abbrev manifest : List Row
manifest = record { c = 32; bc = 64; d = 2; b = 32 } ∷ []

abbrev no_state : Option ℕ
no_state = none

require_envelope_iff_example :
    (require_envelope manifest (level ∷ levels) true 64 none true no_state ≡ ok tt)
    ↔ RunsHere manifest level levels true 64 false true false
require_envelope_iff_example =
    require_envelope_iff manifest level levels none 64 true true no_state level-IsConstructed

abbrev tensor_of : List ℕ → Entry
tensor_of shape =
    Entry.tensor (record { shape = shape; dtype = Dtype.bfloat16; contiguous = true; device = 0 })

abbrev bundle : RouteFactors
bundle = record {
  topology = some (level ∷ levels);
  read = tensor_of (1 ∷ 2 ∷ 3 ∷ 32 ∷ []) ∷ tensor_of (1 ∷ 2 ∷ 3 ∷ 32 ∷ []) ∷ [];
  write = tensor_of (1 ∷ 2 ∷ 3 ∷ 32 ∷ []) ∷ tensor_of (1 ∷ 2 ∷ 3 ∷ 32 ∷ []) ∷ [];
  g_write = tensor_of (1 ∷ 2 ∷ 3 ∷ []);
  read_mass = Entry.missing;
}

abbrev context : ChunkContext ℕ
context = record {
  routes = some bundle;
  v = tensor_of (1 ∷ 2 ∷ 3 ∷ 64 ∷ []);
  decay = none;
  state = StateArgument.carried 7;
  supplied = "g_write" ∷ [];
  flags = record {
    v = false;
    read = false ∷ false ∷ [];
    write = false ∷ false ∷ [];
    g_write = false;
    read_mass = none;
    dials = none;
  };
}

abbrev cuda : ℕ → Bool
cuda device = device == 0

validate_context_iff_example :
    (validate_context cuda manifest true context ≡ ok tt)
    ↔ IsAccepted cuda manifest true context bundle level levels
validate_context_iff_example =
    validate_context_iff cuda manifest true context bundle level levels refl refl
      level-IsConstructed

context_let_in : validate_context cuda manifest true context ≡ ok tt
unfolding validate_context rola.Rules.training_envelope rola.Rules.arm rola.Rules.arm_envelope
    rola.Rules.envelope
context_let_in = refl

abbrev plane : Option ℕ
plane = some 5

abbrev wants : ℕ → Bool → Bool
wants s paging = paging

abbrev entry : ℕ → Result (Option ℕ × Option ℕ)
entry s = ok (none, some s)

-- The objects of a walk: None, a plane, a pair and a mask.
data Thing : Type 0 where
  nothing : Thing
  plane_of : ℕ → Thing
  pair : Thing → Thing → Thing
  member_of : Mask → Thing

abbrev things : Objects Thing
things = record {
  null = nothing;
  is_null =
      λ v. elim v [ nothing ↦ true | plane_of n ↦ false | pair x y ↦ false | member_of m ↦ false ];
  in_masks = λ v masks. elim v [
    | nothing ↦ false
    | plane_of n ↦ false
    | pair x y ↦ false
    | member_of m ↦ is_among m masks
  ];
  items = λ v. elim v [
    | nothing ↦ none
    | plane_of n ↦ none
    | pair x y ↦ some (x ∷ y ∷ [])
    | member_of m ↦ none
  ];
  same = λ v w. false;
}

abbrev embed : Option ℕ → Thing
embed none = nothing
embed (some n) = plane_of n

abbrev coding : Coding things ℕ
coding = record {
  embed = embed;
  embed_none = refl;
  pack = pair;
  unpack = λ x y. refl;
  mask_object = member_of;
  mask_present = λ m. refl;
  mask_in = λ m masks. refl;
}

-- The call gives the plane 5, and no state.
abbrev bodies : String → Facts Thing → Result Thing
bodies name f = coded things coding (residency entry plane no_state none)

abbrev walk : Walk Thing
walk = record {
  facts =
      ("mask", member_of Mask.m2)
      ∷ ("state", nothing)
      ∷ ("given_state_in", plane_of 5)
      ∷ ("given_arena", nothing)
      ∷ ("routes", nothing)
      ∷ ("d_v", nothing)
      ∷ ("atom_bits", nothing)
      ∷ ("paging", nothing)
      ∷ ("arm", nothing)
      ∷ [];
  memo = [];
}

walk_node-residency_example :
    Leaves things coding
      (residency entry plane no_state none)
      walk
      (walk_node things (residency_node bodies) walk)
unfolding find holds_all holds mask classify_call
walk_node-residency_example =
    walk_node-residency things coding bodies walk wants entry plane no_state false none true false
      refl refl refl refl refl

-- An object is a number, None is 0, and what zip draws from one is as many zeros; a node's function
-- returns how many names the node gives, and `residency` refuses.
abbrev objects : Objects ℕ
objects = record {
  null = 0;
  is_null = λ v. v == 0;
  in_masks = λ v masks. true;
  items = λ v. some (replicate v 0);
  same = λ v w. v == w;
}

abbrev answer : String → Facts ℕ → Result ℕ
answer name f =
    if str_eq name "pack_planes"
    then ok 4
    else if str_eq name "residency"
    then raised runtime_error
    else if member name ("topology" ∷ "facts_tables" ∷ "backing" ∷ [])
    then ok 2
    else ok 1

abbrev seeds_of : ChunkContext ℕ → Seeds ℕ
seeds_of ctx = record {
  routes = 1;
  v = 2;
  decay = 0;
  state = 7;
  expert = 0;
  want_state = 1;
  given_state_in = 0;
  given_arena = 0;
}

two : (v : ℕ) → ◌≡◌ {A = Result ℕ} (ok 2) (ok v) → Fits objects ("x" ∷ "y" ∷ []) v
two v e = subst (Fits objects ("x" ∷ "y" ∷ [])) (ok_injective 2 v e) (0 ∷ 0 ∷ [], refl, refl)

four : (v : ℕ) → ◌≡◌ {A = Result ℕ} (ok 4) (ok v) → Fits objects ("x" ∷ "y" ∷ "z" ∷ "w" ∷ []) v
four v e =
    subst (Fits objects ("x" ∷ "y" ∷ "z" ∷ "w" ∷ [])) (ok_injective 4 v e)
      (0 ∷ 0 ∷ 0 ∷ 0 ∷ [], refl, refl)

none_returned :
    (v : ℕ) → ◌≡◌ {A = Result ℕ} (raised runtime_error) (ok v) → Fits objects ("x" ∷ "y" ∷ []) v
none_returned v e = absurd (cc)

answers : Answers objects answer
unfolding chunk_dag member
answers = (
  (λ f v e. tt),
  (
    (λ f v e. two v e),
    (
      (λ f v e. tt),
      (
        (λ f v e. tt),
        (
          (λ f v e. tt),
          (
            (λ f v e. tt),
            (
              (λ f v e. four v e),
              (
                (λ f v e. tt),
                (
                  (λ f v e. two v e),
                  (
                    (λ f v e. none_returned v e),
                    (
                      (λ f v e. tt),
                      ((λ f v e. two v e), ((λ f v e. tt), ((λ f v e. tt), ((λ f v e. tt), tt)))),
                    ),
                  ),
                ),
              ),
            ),
          ),
        ),
      ),
    ),
  ),
)

build_chunk_plan_lem_example :
    ((p : ℕ) × (build_chunk_plan cuda manifest true context objects answer seeds_of (3 ∷ []) ≡ ok p)
      × (validate_context cuda manifest true context ≡ ok tt))
    ⊎ ((e : Exception) × (build_chunk_plan cuda manifest true context objects answer seeds_of
            (3 ∷ [])
          ≡ raised e)
        × ((validate_context cuda manifest true context ≡ raised e)
            ⊎ ((validate_context cuda manifest true context ≡ ok tt)
                × Raises objects e (chunk_walk context seeds_of (3 ∷ [])) (chunk_dag answer))))
build_chunk_plan_lem_example =
    build_chunk_plan_lem objects cuda manifest true context answer seeds_of (3 ∷ []) answers
