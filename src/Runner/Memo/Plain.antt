-- ===== src/Runner/Memo/Plain.antt =====
-- A walk with memos against the walk of the same nodes declared with none.
use Prim.Native.String.{String}
use rola.Prelude.{
  All, Bool-cases, List, Result, [], ap, inl, inr, map, not, ok, raised, refl, runtime_error, sym,
  ◌&&◌, ◌∙◌, ◌∷◌, ◌≡◌,
}
use rola.Prelude.Methods.{then_run}
use rola.Runner.{
  Facts, Objects, Node, Entry, Walk, holds_all, produce, spread, spread_into, is_masked, is_empty,
  store_missing, walk_node, run, key_names, is_cached, read_all, recalled, call, remember,
}
use mathlib.Core.Path.{subst}
use rola.Runner.Memo.{plain, IsPure, Recalls, Apart, MemosApart, produce_answers, Agree}

module _ {ℓ} {V : Type ℓ} (o : Objects V) where
  -- Two outcomes side by side: the second walk has the memo `m` throughout.
  record IsBeside (memo m : List (Entry V)) (out out' : Result (Unit {0}) × Walk V) : Type ℓ where
    result : Result (Unit {0})
    walk : Walk V
    first : out ≡ (result, walk)
    second : out' ≡ (result, record { facts = walk.facts; memo = m })
    kept : walk.memo ≡ memo

  spread_into-IsBeside :
      (r : Result (Facts V)) (w : Walk V) (m : List (Entry V))
      → IsBeside w.memo m
          (spread_into o r w)
          (spread_into o r (record { facts = w.facts; memo = m }))
  unfolding spread_into
  spread_into-IsBeside (ok f) w m = record {
    result = ok tt;
    walk = record w { facts = f };
    first = refl;
    second = refl;
    kept = refl;
  }
  spread_into-IsBeside (raised e) w m = record {
    result = raised e;
    walk = w;
    first = refl;
    second = refl;
    kept = refl;
  }

  -- The statements after `step(facts)`.
  finish : List String → Result V × Walk V → Result (Unit {0}) × Walk V
  finish gives out = then_run out λ v u. spread_into o (spread o gives v u.facts) u

  finish-IsBeside :
      (gives : List String) (a : Result V) (w : Walk V) (m : List (Entry V))
      → IsBeside w.memo m
          (finish gives (a, w))
          (finish gives (a, record { facts = w.facts; memo = m }))
  unfolding finish
  finish-IsBeside gives (ok v) w m = spread_into-IsBeside (spread o gives v w.facts) w m
  finish-IsBeside gives (raised e) w m = record {
    result = raised e;
    walk = w;
    first = refl;
    second = refl;
    kept = refl;
  }

  produce-plain : (n : Node V) (w : Walk V) → produce o (plain n) w ≡ (n.fn w.facts, w)
  unfolding produce plain key_names is_cached is_empty read_all recalled call remember
  produce-plain n w = by_result (n.fn w.facts)
    where
      by_result : (a : Result V) → remember o (plain n) [] a w ≡ (a, w)
      by_result (ok v) = refl
      by_result (raised e) = refl

  -- One node, on both walks.
  record NodeAgrees (n : Node V) (w : Walk V) (m : List (Entry V)) : Type ℓ where
    memo : List (Entry V)
    beside :
        IsBeside memo m
          (walk_node o n w)
          (walk_node o (plain n) (record { facts = w.facts; memo = m }))
    recalls :
        (l : List (Node V)) → All (Apart o n) l → All (Recalls o w.memo) l → All (Recalls o memo) l

  walk_node-NodeAgrees :
      (n : Node V) (w : Walk V) (m : List (Entry V))
      → IsPure o n
      → Recalls o w.memo n
      → NodeAgrees n w m
  unfolding walk_node finish plain is_masked
  walk_node-NodeAgrees n w m p s = elim (Bool-cases (is_masked o n w.facts)) [
    | inl masked ↦ record {
      memo = w.memo;
      beside = record {
        result = ok tt;
        walk = record w { facts = store_missing o.null n.gives w.facts };
        first = rw masked;
        second = rw (same_mask, masked);
        kept = refl;
      };
      recalls = λ l d t. t;
    }
    | inr runs ↦ elim (Bool-cases (not (is_empty n.gives) && holds_all n.gives w.facts)) [
      | inl supplied ↦ record {
        memo = w.memo;
        beside = record {
          result = ok tt;
          walk = w;
          first = rw (runs, supplied);
          second = rw (same_mask, runs, supplied);
          kept = refl;
        };
        recalls = λ l d t. t;
      }
      | inr called ↦ elim (Bool-cases (holds_all n.needs w.facts)) [
        | inr short ↦ record {
          memo = w.memo;
          beside = record {
            result = raised runtime_error;
            walk = w;
            first = rw (runs, called, short);
            second = rw (same_mask, runs, called, short);
            kept = refl;
          };
          recalls = λ l d t. t;
        }
        | inl held ↦
            let a = produce_answers o n w p held s in
            let b =
              finish-IsBeside n.gives (n.fn w.facts)
                (record { facts = w.facts; memo = (produce o n w).1.memo }) m in
            record {
              memo = (produce o n w).1.memo;
              beside = record {
                result = b.result;
                walk = b.walk;
                first =
                    rw (runs, called, held)
                      (ap (finish n.gives) (λ i. (
                        a.answer i,
                        record { facts = a.same_facts i; memo = (produce o n w).1.memo },
                      ))
                        ∙ b.first);
                second =
                    rw (same_mask, runs, called, held)
                      (ap (finish n.gives) (produce-plain n (record { facts = w.facts; memo = m }))
                        ∙ b.second);
                kept = b.kept;
              };
              recalls = a.recalls;
            }
      ]
    ]
  ]
    where
      same_mask : is_masked o (plain n) w.facts ≡ is_masked o n w.facts
      same_mask = refl

  record WalkAgrees (whole : List (Node V)) (out out' : Result (Unit {0}) × Walk V) : Type ℓ where
    agree : Agree o out out'
    recalls : All (Recalls o out.1.memo) whole

  walk_agrees :
      (dag whole : List (Node V)) (w : Walk V) (m : List (Entry V))
      → All (IsPure o) dag
      → MemosApart o whole dag
      → All (Recalls o w.memo) whole
      → All (Recalls o w.memo) dag
      → WalkAgrees whole
          (run o dag w)
          (run o (map plain dag) (record { facts = w.facts; memo = m }))
  unfolding run
  walk_agrees [] whole w m p d s t = record { agree = (refl, refl); recalls = s }
  walk_agrees (n ∷ dag) whole w m p d s t =
      let a = walk_node-NodeAgrees n w m p.0 t.0 in
      rw (a.beside.first, a.beside.second)
        (after (λ u s t. walk_agrees dag whole u m p.1 d.2 s t) a.beside.result a.beside.walk
          (subst (λ e. All (Recalls o e) whole) (sym a.beside.kept) (a.recalls whole d.0 s))
          (subst (λ e. All (Recalls o e) dag) (sym a.beside.kept) (a.recalls dag d.1 t.1)))
    where
      after :
          ((u : Walk V)
            → All (Recalls o u.memo) whole
            → All (Recalls o u.memo) dag
            → WalkAgrees whole
                (run o dag u)
                (run o (map plain dag) (record { facts = u.facts; memo = m })))
          → (r : Result (Unit {0})) (u : Walk V) → All (Recalls o u.memo) whole
          → All (Recalls o u.memo) dag
          → WalkAgrees whole
              (then_run (r, u) λ _ v. run o dag v)
              (then_run (r, record { facts = u.facts; memo = m }) λ _ v. run o (map plain dag) v)
      after rest (ok x) u s t = rest u s t
      after rest (raised e) u s t = record { agree = (refl, refl); recalls = s }

  -- Where the declared keys are honest (each node's function answers equal keys alike, and the key's
  -- names are among its needs), nodes with one name are one node, and each memo holds only what its
  -- node would answer, a walk gives the result and the facts that the same nodes give when they are
  -- declared with no memo at all, whatever was kept before; and the memos stay such, so that the
  -- next walk is covered too.
  pub run_memo_invisible :
      (dag : List (Node V)) (w : Walk V) (m : List (Entry V))
      → All (IsPure o) dag
      → MemosApart o dag dag
      → All (Recalls o w.memo) dag
      → Agree o (run o dag w) (run o (map plain dag) (record { facts = w.facts; memo = m }))
        × All (Recalls o (run o dag w).1.memo) dag
  run_memo_invisible dag w m p d s = let a = walk_agrees dag dag w m p d s s in (a.agree, a.recalls)
