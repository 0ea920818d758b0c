-- ===== src/Runner/Supplied.antt =====
-- The short-circuit of `run`: a caller that supplies what a node gives has supplied the fact.

use text.Mathlib.TextEquality.{eq_iff}
use Prim.Native.String.{String}
use rola.Prelude.{
  All, Bool-cases, List, Option, Option-cases, Result, [], ap, arith, false, if◌then◌else◌, inl,
  inr, length, none, not, ok, raised, refl, some, true, ◌&&◌, ◌==◌, ◌∙◌, ◌∷◌, ◌≡◌, ◌⊎◌,
}
use rola.Prelude.Methods.{then_run, lift}
use rola.Runner.{
  Facts, Objects, Node, Walk, find, holds, holds_all, store, store_all, store_missing, is_masked,
  is_empty, member, read_all, key_names, is_cached, recall, remember, call, recalled, produce,
  spread, spread_into, walk_node, run,
}
use rola.Runner.Names.{Extends, find-store, holds_all-Extends}

module _ {ℓ} {V : Type ℓ} where
  -- Every fact of `f` has its value in `g`.
  abbrev pub Keeps : Facts V → Facts V → Type ℓ
  Keeps f g = (k : String) (v : V) → find k f ≡ some v → find k g ≡ some v

  -- The bag holds all that the node gives, or none of it.
  abbrev pub WholeOrNone : Facts V → Node V → Type 0
  WholeOrNone f n = (holds_all n.gives f ≡ true) ⊎ All (λ k. holds k f ≡ false) n.gives

  find-store_all :
      (k : String) (ks : List String) (vs : List V) (f : Facts V)
      → member k ks ≡ false
      → find k (store_all ks vs f) ≡ find k f
  unfolding store_all member
  find-store_all k [] vs f h = refl
  find-store_all k (j ∷ ks) [] f h = refl
  find-store_all k (j ∷ ks) (v ∷ vs) f h =
      ground (arith, find-store_all k ks vs (store j v f), find-store k j v f)

  store_missing-Keeps :
      (null : V) (ks : List String) (f : Facts V) → Keeps f (store_missing null ks f)
  unfolding store_missing holds
  store_missing-Keeps null [] f k v h = h
  store_missing-Keeps null (j ∷ ks) f k v h = elim (Bool-cases (holds j f)) [
    | inl old ↦ rw old (store_missing-Keeps null ks f k v h)
    | inr new ↦ rw new (
        store_missing-Keeps null ks (store j null f) k v
          (ground (arith, find-store k j null f, eq_iff j k)))
  ]

  not_member :
      (f : Facts V) (k : String) (ks : List String)
      → holds k f ≡ true
      → All (λ j. holds j f ≡ false) ks
      → member k ks ≡ false
  unfolding member
  not_member f k [] h a = refl
  not_member f k (j ∷ ks) h a = ground (arith, eq_iff j k, a.0, not_member f k ks h a.1)

  Keeps-Extends : (f g : Facts V) → Keeps f g → Extends f g
  unfolding holds
  Keeps-Extends f g keeps k h = elim (Option-cases (find k f)) [
    | inl e ↦ cc
    | inr (v, e) ↦ ground (arith, keeps k v e)
  ]

module _ {ℓ} {V : Type ℓ} (o : Objects V) where
  spread_into-find :
      (k : String) (ks : List String) (v : V) (u : Walk V)
      → member k ks ≡ false
      → find k (spread_into o (spread o ks v u.facts) u).1.facts ≡ find k u.facts
  unfolding spread spread_into member
  spread_into-find k [] v u h = refl
  spread_into-find k (j ∷ []) v u h = ground (arith, find-store k j v u.facts)
  spread_into-find k (j ∷ i ∷ ks) v u h = elim (Option-cases (o.items v)) [
    | inl e ↦ rw (spread_into, e) refl
    | inr (vs, e) ↦
        rw (spread_into, e)
          (elim (Bool-cases (length vs == length (j ∷ i ∷ ks))) [
            | inl same ↦ rw same (find-store_all k (j ∷ i ∷ ks) vs u.facts h)
            | inr other ↦ rw other refl
          ])
  ]

  remember-facts :
      (n : Node V) (key : List V) (r : Result V) (w : Walk V)
      → (remember o n key r w).1.facts ≡ w.facts
  unfolding remember
  remember-facts n key (ok v) w = elim (Bool-cases (is_cached n)) [
    | inl cached ↦ rw cached refl
    | inr uncached ↦ rw uncached refl
  ]
  remember-facts n key (raised e) w = refl

  recalled-facts :
      (n : Node V) (key : List V) (m : Option V) (w : Walk V)
      → (recalled o n key m w).1.facts ≡ w.facts
  unfolding recalled call
  recalled-facts n key none w = remember-facts n key (n.fn w.facts) w
  recalled-facts n key (some v) w = refl

  produce-facts : (n : Node V) (w : Walk V) → (produce o n w).1.facts ≡ w.facts
  unfolding produce
  produce-facts n w = by_key (read_all (key_names n) w.facts)
    where
      by_key :
          (r : Result (List V))
          → (then_run (lift r w) λ key.
              recalled o n key (if is_cached n then recall o n.name key w.memo else none)).1.facts
            ≡ w.facts
      by_key (ok key) =
          recalled-facts n key (if is_cached n then recall o n.name key w.memo else none) w
      by_key (raised e) = refl

  -- A node that gives no name `k` leaves it alone, whatever becomes of the call.
  called-find :
      (k : String) (n : Node V) (w : Walk V)
      → member k n.gives ≡ false
      → find k
          (then_run (produce o n w) λ v u. spread_into o (spread o n.gives v u.facts) u).1.facts
        ≡ find k w.facts
  called-find k n w h = by_out (produce o n w) ∙ ap (find k) (produce-facts n w)
    where
      by_out :
          (out : Result V × Walk V)
          → find k (then_run out λ v u. spread_into o (spread o n.gives v u.facts) u).1.facts
            ≡ find k out.1.facts
      by_out (ok v, u) = spread_into-find k n.gives v u h
      by_out (raised e, u) = refl

  -- A name that is supplied is no name of a node that is called.
  not_given :
      (f g : Facts V) (k : String) (v : V) (gives : List String)
      → (holds_all gives f ≡ true) ⊎ All (λ j. holds j f ≡ false) gives
      → Keeps f g
      → find k f ≡ some v
      → not (is_empty gives) && holds_all gives g ≡ false
      → member k gives ≡ false
  unfolding holds is_empty member
  not_given f g k v [] side keeps h called = refl
  not_given f g k v (j ∷ ks) (inl whole) keeps h called =
      absurd (ground (arith, holds_all-Extends (j ∷ ks) f g (Keeps-Extends f g keeps) whole))
  not_given f g k v (j ∷ ks) (inr free) keeps h called = not_member f k (j ∷ ks) (ground arith) free

  walk_node-Keeps :
      (f : Facts V) (n : Node V) (w : Walk V)
      → WholeOrNone f n
      → Keeps f w.facts
      → Keeps f (walk_node o n w).1.facts
  unfolding walk_node
  walk_node-Keeps f n w side keeps k v h = elim (Bool-cases (is_masked o n w.facts)) [
    | inl masked ↦ rw masked (store_missing-Keeps o.null n.gives w.facts k v (keeps k v h))
    | inr runs ↦ rw runs (elim (Bool-cases (not (is_empty n.gives) && holds_all n.gives w.facts)) [
      | inl supplied ↦ rw supplied (keeps k v h)
      | inr called ↦ rw called (elim (Bool-cases (holds_all n.needs w.facts)) [
        | inr short ↦ rw short (keeps k v h)
        | inl held ↦
            rw held (
              called-find k n w (not_given f w.facts k v n.gives side keeps h called) ∙ keeps k v h)
      ])
    ])
  ]

  walk-Keeps :
      (f : Facts V) (dag : List (Node V)) (w : Walk V)
      → All (WholeOrNone f) dag
      → Keeps f w.facts
      → Keeps f (run o dag w).1.facts
  unfolding run
  walk-Keeps f [] w sides keeps = keeps
  walk-Keeps f (n ∷ dag) w sides keeps =
      after (walk_node o n w) (walk_node-Keeps f n w sides.0 keeps)
        (λ u. walk-Keeps f dag u sides.1)
    where
      after :
          (out : Result (Unit {0}) × Walk V)
          → Keeps f out.1.facts
          → ((u : Walk V) → Keeps f u.facts → Keeps f (run o dag u).1.facts)
          → Keeps f (then_run out λ _ u. run o dag u).1.facts
      after (ok t, u) k rest = rest u k
      after (raised e, u) k rest = k

  -- If the bag holds, for each node, all of what it gives or none of it, then no fact of the bag is
  -- recomputed: after the walk, finished or raised, each still has the value it was supplied with.
  pub run_keeps_supplied :
      (dag : List (Node V)) (w : Walk V) (k : String) (v : V)
      → All (WholeOrNone w.facts) dag
      → find k w.facts ≡ some v
      → find k (run o dag w).1.facts ≡ some v
  run_keeps_supplied dag w k v sides h = walk-Keeps w.facts dag w sides (λ j u e. e) k v h
