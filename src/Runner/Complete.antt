-- ===== src/Runner/Complete.antt =====
-- A DAG that `validate_dag` accepts can be walked: no node is reached without what it needs.
use text.Mathlib.Text.{◌==◌ as str_eq}
use Prim.Native.String.{String}
use rola.Prelude.{
  >>=-eq-ok, All, Bool-cases, List, Option-cases, Result, [], arith, false, inl, inr, length, not,
  ok, refl, some, sym, true, ◌&&◌, ◌++◌, ◌∷◌, ◌≡◌,
}
use mathlib.Core.Path.{subst}
use rola.Runner.{
  Facts, Objects, Node, Entry, Walk, find, holds, holds_all, store, store_all, store_missing,
  is_masked, is_empty, subset, check_needs, validate_dag, read_all, key_names, is_cached, recall,
  remember, call, recalled, produce, spread, spread_into, walk_node, run,
}
use rola.Runner.Names.{Extends}
use rola.Runner.Names

module _ {ℓ} {V : Type ℓ} (o : Objects V) where
  -- What a node's function has to produce for the names that it gives.
  abbrev pub Fits : List String → V → Type ℓ
  Fits [] v = Unit
  Fits (k ∷ []) v = Unit
  Fits (k ∷ j ∷ ks) v = (vs : List V) × (o.items v ≡ some vs) × (length vs ≡ length (k ∷ j ∷ ks))

  -- Called with its needs in the bag, the node returns, and produces what it gives. Its key is read
  -- from its needs, as `node` makes sure.
  pub record IsTotal (n : Node V) : Type ℓ where
    pub returns :
        (f : Facts V) → holds_all n.needs f ≡ true → (v : V) × (n.fn f ≡ ok v) × Fits n.gives v
    pub keyed : subset (key_names n) n.needs ≡ true

  -- What a memo holds for the node fits it.
  abbrev pub Serves : List (Entry V) → Node V → Type ℓ
  Serves memo n = (key : List V) (v : V) → recall o n.name key memo ≡ some v → Fits n.gives v

  -- No two nodes share a name, and so a memo.
  abbrev pub NamesDiffer : List (Node V) → Type ℓ
  NamesDiffer [] = Unit
  NamesDiffer (n ∷ dag) = All (λ m. str_eq n.name m.name ≡ false) dag × NamesDiffer dag

  abbrev pub all_gives : List (Node V) → List String
  all_gives [] = []
  all_gives (n ∷ dag) = n.gives ++ all_gives dag

  pub read_all_lem :
      (ks : List String) (f : Facts V)
      → holds_all ks f ≡ true
      → (vs : List V) × (read_all ks f ≡ ok vs)
  unfolding read_all holds_all holds
  read_all_lem [] f h = ([], refl)
  read_all_lem (k ∷ ks) f h = elim (Option-cases (find k f)) [
    | inl e ↦ cc
    | inr (v, e) ↦ let (vs, r) = read_all_lem ks f (ground arith) in (v ∷ vs, ground arith)
  ]

  -- What a walk leaves behind a node: more names, and a memo that still serves the nodes to come.
  pub record IsAfter (gives : List String) (rest : List (Node V)) (w w' : Walk V) : Type ℓ where
    pub held : holds_all gives w'.facts ≡ true
    pub extends : Extends w.facts w'.facts
    pub serves : All (Serves w'.memo) rest

  pub spread_lem :
      (ks : List String) (v : V) (f : Facts V)
      → Fits ks v
      → (g : Facts V) × (spread o ks v f ≡ ok g) × (holds_all ks g ≡ true) × Extends f g
  unfolding spread holds_all
  spread_lem [] v f h = (f, refl, refl, λ k p. p)
  spread_lem (k ∷ []) v f h =
      (store k v f, refl, rw (Names.holds-store k v f), Names.store-Extends k v f)
  spread_lem (k ∷ j ∷ ks) v f (vs, e, len) = (
    store_all (k ∷ j ∷ ks) vs f,
    ground arith,
    Names.holds_all-store_all (k ∷ j ∷ ks) vs f len,
    Names.store_all-Extends (k ∷ j ∷ ks) vs f,
  )

  -- A new entry serves the nodes to come, which have other names.
  remember-Serves :
      (n : Node V) (key : List V) (v : V) (memo : List (Entry V)) (rest : List (Node V))
      → All (λ m. str_eq n.name m.name ≡ false) rest
      → All (Serves memo) rest
      → All (Serves (record { node = n.name; key = key; value = v } ∷ memo)) rest
  unfolding recall
  remember-Serves n key v memo [] d s = tt
  remember-Serves n key v memo (m ∷ rest) d s =
      (λ k u h. s.0 k u (ground arith), remember-Serves n key v memo rest d.1 s.1)

  -- What calling a node, or recalling it, comes to.
  record IsProduced (n : Node V) (rest : List (Node V)) (w : Walk V) (out : Result V × Walk V)
      : Type ℓ where
    value : V
    walk : Walk V
    returned : out ≡ (ok value, walk)
    fits : Fits n.gives value
    same_facts : walk.facts ≡ w.facts
    serves : All (Serves walk.memo) rest

  produce_lem :
      (n : Node V) (rest : List (Node V)) (w : Walk V)
      → IsTotal n
      → holds_all n.needs w.facts ≡ true
      → All (λ m. str_eq n.name m.name ≡ false) rest
      → Serves w.memo n
      → All (Serves w.memo) rest
      → IsProduced n rest w (produce o n w)
  unfolding produce recalled call remember
  produce_lem n rest w t held d s0 s =
      let (key, r) =
        read_all_lem (key_names n) w.facts
          (Names.holds_all-subset (key_names n) n.needs w.facts t.keyed held) in
      let (v, e, fit) = t.returns w.facts held in
      elim (Bool-cases (is_cached n)) [
        | inl cached ↦ elim (Option-cases (recall o n.name key w.memo)) [
          | inl miss ↦ record {
            value = v;
            walk = record w { memo = record { node = n.name; key = key; value = v } ∷ w.memo };
            returned = ground arith;
            fits = fit;
            same_facts = refl;
            serves = remember-Serves n key v w.memo rest d s;
          }
          | inr (u, hit) ↦ record {
            value = u;
            walk = w;
            returned = ground arith;
            fits = s0 key u hit;
            same_facts = refl;
            serves = s;
          }
        ]
        | inr uncached ↦ record {
          value = v;
          walk = w;
          returned = ground arith;
          fits = fit;
          same_facts = refl;
          serves = s;
        }
      ]

  walk_node_lem :
      (n : Node V) (rest : List (Node V)) (w : Walk V)
      → IsTotal n
      → holds_all n.needs w.facts ≡ true
      → All (λ m. str_eq n.name m.name ≡ false) rest
      → Serves w.memo n
      → All (Serves w.memo) rest
      → (w' : Walk V) × (walk_node o n w ≡ (ok tt, w')) × IsAfter n.gives rest w w'
  unfolding walk_node spread_into
  walk_node_lem n rest w t held d s0 s = elim (Bool-cases (is_masked o n w.facts)) [
    | inl masked ↦ (
      record w { facts = store_missing o.null n.gives w.facts },
      rw masked,
      record {
        held = Names.holds_all-store_missing o.null n.gives w.facts;
        extends = Names.store_missing-Extends o.null n.gives w.facts;
        serves = s;
      },
    )
    | inr runs ↦ elim (Bool-cases (not (is_empty n.gives) && holds_all n.gives w.facts)) [
      | inl supplied ↦
          (w, rw (runs, supplied), record { held = ground arith; extends = λ k p. p; serves = s })
      | inr called ↦
          let p = produce_lem n rest w t held d s0 s in
          let (g, e, hold, ext) = spread_lem n.gives p.value p.walk.facts p.fits in
          (
            record p.walk { facts = g },
            rw (runs, called, held, p.returned, e),
            record {
              held = hold;
              extends = λ k q. ext k (subst (λ f. holds k f ≡ true) (sym p.same_facts) q);
              serves = p.serves;
            },
          )
    ]
  ]

  walk_completes :
      (dag : List (Node V)) (available : List String) (w : Walk V)
      → check_needs dag available ≡ ok tt
      → holds_all available w.facts ≡ true
      → All IsTotal dag
      → NamesDiffer dag
      → All (Serves w.memo) dag
      → (w' : Walk V) × (run o dag w ≡ (ok tt, w'))
        × (holds_all (all_gives dag) w'.facts ≡ true)
        × Extends w.facts w'.facts
  unfolding run check_needs holds_all
  walk_completes [] available w c h t d s = (w, refl, refl, λ k p. p)
  walk_completes (n ∷ dag) available w c h t d s = elim (Bool-cases (subset n.needs available)) [
    | inr bad ↦ cc
    | inl good ↦
        let (w1, e, a) =
          walk_node_lem n dag w t.0 (Names.holds_all-subset n.needs available w.facts good h) d.0
            s.0 s.1 in
        let (w2, e2, held, ext) =
          walk_completes dag (available ++ n.gives) w1 (ground arith)
            (Names.holds_all-append available n.gives w1.facts
              (Names.holds_all-Extends available w.facts w1.facts a.extends h) a.held)
            t.1 d.1 a.serves in
        (
          w2,
          rw (e, e2),
          Names.holds_all-append n.gives (all_gives dag) w2.facts
              (Names.holds_all-Extends n.gives w1.facts w2.facts ext a.held) held,
          λ k p. ext k (a.extends k p),
        )
  ]

  pub checked :
      (dag : List (Node V)) (seeds : List String)
      → validate_dag dag seeds ≡ ok tt
      → check_needs dag seeds ≡ ok tt
  unfolding validate_dag
  checked dag seeds h = let (u, e, r) = >>=-eq-ok (check_needs dag seeds) _ h in e

  -- A DAG that `validate_dag` accepts over its seeds is walked to its end from any bag that holds the
  -- seeds, if each node's function returns what the node gives when its needs are there: no node is
  -- reached without a need, and the bag then holds the seeds and every name that a node gives. The
  -- nodes' names differ, and the memos hold what earlier walks produced.
  pub run_total :
      (dag : List (Node V)) (seeds : List String) (w : Walk V)
      → validate_dag dag seeds ≡ ok tt
      → holds_all seeds w.facts ≡ true
      → All IsTotal dag
      → NamesDiffer dag
      → All (Serves w.memo) dag
      → (w' : Walk V) × (run o dag w ≡ (ok tt, w'))
        × (holds_all (seeds ++ all_gives dag) w'.facts ≡ true)
  run_total dag seeds w valid h t d s =
      let (w', e, held, ext) = walk_completes dag seeds w (checked dag seeds valid) h t d s in
      (
        w',
        e,
        Names.holds_all-append seeds (all_gives dag) w'.facts
            (Names.holds_all-Extends seeds w.facts w'.facts ext h) held,
      )
