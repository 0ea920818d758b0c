-- ===== src/Call/Walk.antt =====
-- The walk of a chunk call.
use rola.Prelude.{
  All, Bool, Exception, List, Option-cases, Result, Result-cases, [], false, inl, inr, ok, raised,
  refl, some, true, ℕ, ◌++◌, ◌∷◌, ◌≡◌, ◌⊎◌,
}
use Prim.Native.String.{String}
use rola.Runner.{
  Facts, Node, Walk, Objects, validate_dag, check_needs, count_nodes, subset, store_all, member,
  is_empty, find, holds, holds_all, run, is_cached, key_names,
}
use rola.Runner.Complete.{Fits, all_gives}
use rola.Runner.Honest.{IsHonest, Raises, run_stops}
use rola.Runner.Names
use rola.Rules.{Row}
use rola.Call.Context.{ChunkContext, validate_context}
use rola.Call.Dag.{chunk_walk, chunk_seeds, chunk_dag, Seeds, seed_facts, plan_of, build_chunk_plan}

module _ {ℓ} {V : Type ℓ} (o : Objects V) where
  chunk_dag-accepted :
      (body : String → Facts V → Result V) → validate_dag (chunk_dag body) chunk_seeds ≡ ok tt
  unfolding chunk_dag validate_dag check_needs count_nodes subset member is_empty
  chunk_dag-accepted body = refl

  seeds_held : (s : Seeds V) → holds_all chunk_seeds (seed_facts s) ≡ true
  unfolding seed_facts holds_all holds find
  seeds_held s = refl

  plan_given :
      (body : String → Facts V → Result V)
      → member "plan" (chunk_seeds ++ all_gives o (chunk_dag body)) ≡ true
  unfolding chunk_dag member
  plan_given body = refl

  held_found : (k : String) (f : Facts V) → holds k f ≡ true → (v : V) × (find k f ≡ some v)
  unfolding holds
  held_found k f h = elim (Option-cases (find k f)) [ inl missing ↦ cc | inr found ↦ found ]

  plan_found : (w : Walk V) (p : V) → find "plan" w.facts ≡ some p → plan_of (ok tt, w) ≡ ok p
  unfolding plan_of
  plan_found w p found = cc

  plan_raised : (x : Exception) (w : Walk V) → plan_of (raised x, w) ≡ raised x
  unfolding plan_of
  plan_raised x w = refl

  -- A function of the walk returns what its node gives, where it returns.
  abbrev pub Answers : (String → Facts V → Result V) → Type ℓ
  Answers body =
      All (λ (n : Node V). (f : Facts V) (v : V) → n.fn f ≡ ok v → Fits o n.gives v)
        (chunk_dag body)

  -- A node with no memo.
  abbrev IsPlain : Node V → Type 0
  IsPlain n = (is_cached n ≡ false) × (key_names n ≡ [])

  plain-IsHonest :
      (dag : List (Node V))
      → All IsPlain dag
      → All (λ (n : Node V). (f : Facts V) (v : V) → n.fn f ≡ ok v → Fits o n.gives v) dag
      → All (IsHonest o) dag
  plain-IsHonest [] p t = tt
  plain-IsHonest (n ∷ dag) p t =
      (record { fits = t.0; uncached = p.0.0; keyless = p.0.1 }, plain-IsHonest dag p.1 t.1)

  chunk_dag-IsPlain : (body : String → Facts V → Result V) → All IsPlain (chunk_dag body)
  unfolding chunk_dag is_cached key_names is_empty
  chunk_dag-IsPlain body = (
    (refl, refl),
    (
      (refl, refl),
      (
        (refl, refl),
        (
          (refl, refl),
          (
            (refl, refl),
            (
              (refl, refl),
              (
                (refl, refl),
                (
                  (refl, refl),
                  (
                    (refl, refl),
                    (
                      (refl, refl),
                      (
                        (refl, refl),
                        ((refl, refl), ((refl, refl), ((refl, refl), ((refl, refl), tt)))),
                      ),
                    ),
                  ),
                ),
              ),
            ),
          ),
        ),
      ),
    ),
  )

  -- What the walk comes to: a plan, or the exception of one of its functions.
  chunk_walk_lem :
      (body : String → Facts V → Result V) (f : Facts V)
      → Answers body
      → holds_all chunk_seeds f ≡ true
      → ((p : V) × (plan_of (run o (chunk_dag body) (record { facts = f; memo = [] })) ≡ ok p))
        ⊎ ((e : Exception) × (plan_of (run o (chunk_dag body) (record { facts = f; memo = [] }))
              ≡ raised e)
            × Raises o e (record { facts = f; memo = [] }) (chunk_dag body))
  chunk_walk_lem body f t h =
      elim (run_stops o (chunk_dag body) chunk_seeds (record { facts = f; memo = [] })
        (chunk_dag-accepted body) h (plain-IsHonest (chunk_dag body) (chunk_dag-IsPlain body) t)) [
          | inr (x, w, e, raises) ↦ inr (x, rw e (plan_raised x w), raises)
          | inl (w, e, held) ↦
              let there : holds "plan" w.facts ≡ true =
                Names.holds-member "plan" (chunk_seeds ++ all_gives o (chunk_dag body)) w.facts held
                  (plan_given body) in
              let (p, found) = held_found "plan" w.facts there in
              inl (p, rw e (plan_found w p found))
        ]

  -- Where a node's function that returns returns what the node gives, and whatever it raises,
  -- `build_chunk_plan` comes to one of three: `validate_context` refuses the context, and its
  -- exception is raised; or it lets the context in, and its walk reaches a node, with the needs of
  -- the node in the bag, whose function raises, and this exception is raised; or it lets the
  -- context in, and there is a plan. No node is reached without a need, nothing that a node gives
  -- is malformed, and no plan is missing, whatever the mask of the call and whatever the context
  -- supplies of what may be supplied.
  pub build_chunk_plan_lem {κ} :
      {S : Type κ} (cuda : ℕ → Bool) (manifest : List Row) (enabled : Bool) (ctx : ChunkContext S)
      (body : String → Facts V → Result V) (seeds_of : ChunkContext S → Seeds V) (values : List V)
      → Answers body
      → ((p : V) × (build_chunk_plan cuda manifest enabled ctx o body seeds_of values ≡ ok p)
          × (validate_context cuda manifest enabled ctx ≡ ok tt))
        ⊎ ((e : Exception) × (build_chunk_plan cuda manifest enabled ctx o body seeds_of values
              ≡ raised e)
            × ((validate_context cuda manifest enabled ctx ≡ raised e)
                ⊎ ((validate_context cuda manifest enabled ctx ≡ ok tt)
                    × Raises o e (chunk_walk ctx seeds_of values) (chunk_dag body))))
  unfolding build_chunk_plan
  build_chunk_plan_lem cuda manifest enabled ctx body seeds_of values t =
      let bag = store_all ctx.supplied values (seed_facts (seeds_of ctx)) in
      let seeded =
        Names.holds_all-Extends chunk_seeds (seed_facts (seeds_of ctx)) bag
          (Names.store_all-Extends ctx.supplied values (seed_facts (seeds_of ctx)))
          (seeds_held (seeds_of ctx)) in
      elim (Result-cases (validate_context cuda manifest enabled ctx)) [
        | inr (e, refused) ↦ inr (e, rw refused refl, inl refused)
        | inl (u, let_in) ↦ elim (chunk_walk_lem body bag t seeded) [
          | inl (p, e) ↦ inl (p, rw let_in e, let_in)
          | inr (x, e, raises) ↦ inr (x, rw let_in e, inr (let_in, raises))
        ]
      ]
