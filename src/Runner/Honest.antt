-- ===== src/Runner/Honest.antt =====
-- A walk over nodes whose functions may raise: it stops only where one of them does.
use rola.Prelude.{
  All, Bool-cases, Exception, List, Result, Result-cases, [], arith, false, inl, inr, not, ok,
  raised, refl, true, ◌&&◌, ◌++◌, ◌∷◌, ◌≡◌, ◌⊎◌,
}
use Prim.Native.String.{String}
use rola.Runner.{
  Facts, Node, Walk, Objects, holds_all, store_missing, subset, is_empty, is_cached, key_names,
  read_all, is_masked, remember, call, recalled, produce, spread_into, walk_node, run, check_needs,
  validate_dag,
}
use rola.Runner.Complete.{Fits, all_gives, spread_lem, checked}
use rola.Runner.Names
use rola.Runner.Names.{Extends}

module _ {ℓ} {V : Type ℓ} (o : Objects V) where
  -- The walk from `w` reaches a node with its needs in the bag, and the node's function raises `e`
  -- there.
  pub data Raises (e : Exception) : Walk V → List (Node V) → Type ℓ where
    here :
        {n : Node V} {dag : List (Node V)} (w : Walk V)
        → holds_all n.needs w.facts ≡ true
        → n.fn w.facts ≡ raised e
        → Raises e w (n ∷ dag)
    there :
        {n : Node V} {dag : List (Node V)} (w w' : Walk V)
        → walk_node o n w ≡ (ok tt, w')
        → Raises e w' dag
        → Raises e w (n ∷ dag)

  -- Where the node's function returns, it returns what the node gives; and the node has no memo.
  pub record IsHonest (n : Node V) : Type ℓ where
    pub fits : (f : Facts V) (v : V) → n.fn f ≡ ok v → Fits o n.gives v
    pub uncached : is_cached n ≡ false
    pub keyless : key_names n ≡ []

  -- What a node comes to whose needs are there.
  data Outcome (n : Node V) (w : Walk V) (out : Result (Unit {0}) × Walk V) : Type ℓ where
    went :
        (w' : Walk V)
        → out ≡ (ok tt, w')
        → holds_all n.gives w'.facts ≡ true
        → Extends w.facts w'.facts
        → Outcome n w out
    stopped :
        (e : Exception) (w' : Walk V)
        → out ≡ (raised e, w')
        → n.fn w.facts ≡ raised e
        → Outcome n w out

  walk_node_cases :
      (n : Node V) (w : Walk V)
      → IsHonest n
      → holds_all n.needs w.facts ≡ true
      → Outcome n w (walk_node o n w)
  unfolding walk_node produce recalled call remember spread_into read_all
  walk_node_cases n w h held = elim (Bool-cases (is_masked o n w.facts)) [
    | inl masked ↦
        went (record w { facts = store_missing o.null n.gives w.facts }) (rw masked)
          (Names.holds_all-store_missing o.null n.gives w.facts)
          (Names.store_missing-Extends o.null n.gives w.facts)
    | inr runs ↦ elim (Bool-cases (not (is_empty n.gives) && holds_all n.gives w.facts)) [
      | inl supplied ↦ went w (rw (runs, supplied)) (ground arith) (λ k p. p)
      | inr called ↦ elim (Result-cases (n.fn w.facts)) [
        | inl (v, e) ↦
            let (g, spreads, hold, ext) = spread_lem o n.gives v w.facts (h.fits w.facts v e) in
            went (record w { facts = g })
              (rw (runs, called, held, h.keyless, h.uncached, e, h.uncached, spreads)) hold ext
        | inr (x, e) ↦ stopped x w (rw (runs, called, held, h.keyless, h.uncached, e)) e
      ]
    ]
  ]

  run_cases :
      (dag : List (Node V)) (available : List String) (w : Walk V)
      → check_needs dag available ≡ ok tt
      → holds_all available w.facts ≡ true
      → All IsHonest dag
      → ((w' : Walk V) × (run o dag w ≡ (ok tt, w'))
          × (holds_all (all_gives o dag) w'.facts ≡ true)
          × Extends w.facts w'.facts)
        ⊎ ((e : Exception) × (w' : Walk V) × (run o dag w ≡ (raised e, w')) × Raises e w dag)
  unfolding run check_needs holds_all
  run_cases [] available w c h t = inl (w, refl, refl, λ k p. p)
  run_cases (n ∷ dag) available w c h t = elim (Bool-cases (subset n.needs available)) [
    | inr bad ↦ cc
    | inl good ↦
        let needed = Names.holds_all-subset n.needs available w.facts good h in
        elim (walk_node_cases n w t.0 needed) [
          | stopped e w' r raises ↦ inr (e, w', rw r, Raises.here w needed raises)
          | went w1 r given ext ↦
              elim (run_cases dag (available ++ n.gives) w1 (ground arith)
                (Names.holds_all-append available n.gives w1.facts
                  (Names.holds_all-Extends available w.facts w1.facts ext h) given)
                t.1) [
                  | inl (w2, e2, held, more) ↦ inl (
                    w2,
                    rw (r, e2),
                    Names.holds_all-append n.gives (all_gives o dag) w2.facts
                        (Names.holds_all-Extends n.gives w1.facts w2.facts more given) held,
                    λ k p. more k (ext k p),
                  )
                  | inr (e, w', e2, raises) ↦ inr (e, w', rw (r, e2), Raises.there w w1 r raises)
                ]
        ]
  ]

  -- A DAG that `validate_dag` accepts, of nodes with no memo that are honest where they return, is
  -- walked to its end from a bag that holds the seeds, or stops where one of its functions raises.
  pub run_stops :
      (dag : List (Node V)) (seeds : List String) (w : Walk V)
      → validate_dag dag seeds ≡ ok tt
      → holds_all seeds w.facts ≡ true
      → All IsHonest dag
      → ((w' : Walk V) × (run o dag w ≡ (ok tt, w'))
          × (holds_all (seeds ++ all_gives o dag) w'.facts ≡ true))
        ⊎ ((e : Exception) × (w' : Walk V) × (run o dag w ≡ (raised e, w')) × Raises e w dag)
  run_stops dag seeds w valid h t = elim (run_cases dag seeds w (checked o dag seeds valid) h t) [
    | inr stop ↦ inr stop
    | inl (w', e, held, ext) ↦ inl (
      w',
      e,
      Names.holds_all-append seeds (all_gives o dag) w'.facts
          (Names.holds_all-Extends seeds w.facts w'.facts ext h) held,
    )
  ]
