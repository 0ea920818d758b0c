-- ===== src/Runner/Tests.antt =====
-- A DAG of two nodes over numbers: `next` gives `y` from `x` under the key `x`, and `pair` gives `a`
-- and `b` from `y` with no memo.

use rola.Prelude.{
  All, List, Option, Option-cases, Result, [], ap, arith, false, inl, inr, key_error, map, none, ok,
  raised, refl, some, true, ℕ, ◌++◌, ◌+◌, ◌==◌, ◌∷◌, ◌≡◌,
}
use rola.Rules.{Mask}
use rola.Runner.{
  Stream, Objects, Node, Walk, find, holds, holds_all, member, subset, is_empty, same_all, read_all,
  key_names, is_cached, recall, validate_dag, check_needs, count_nodes, run,
}
use rola.Runner.Complete.{IsTotal, all_gives, run_total}
use rola.Runner.Memo.{plain, IsPure, Recalls, Agree}
use rola.Runner.Memo.Plain.{run_memo_invisible}
use rola.Runner.Supplied.{run_keeps_supplied}

-- An object is a pair of numbers behind its first one; 0 is None, and each mask is a member.
abbrev objects : Objects ℕ
objects = record {
  null = 0;
  is_null = λ v. v == 0;
  in_masks = λ v masks. true;
  items = λ v. some (v ∷ (v + 1) ∷ []);
  same = λ v w. v == w;
}

abbrev successor : Option ℕ → Result ℕ
successor none = raised key_error
successor (some v) = ok (v + 1)

abbrev next : Node ℕ
next = record {
  fn = λ f. successor (find "x" f);
  name = "next";
  gives = "y" ∷ [];
  needs = "x" ∷ [];
  stream = Stream.host;
  masks = Mask.m1 ∷ Mask.m2 ∷ [];
  waits = [];
  host_sync = false;
  pure_of = "x" ∷ [];
  per_state = false;
  capturable = true;
  reference_only = false;
}

abbrev pair : Node ℕ
pair = record {
  fn = λ f. successor (find "y" f);
  name = "pair";
  gives = "a" ∷ "b" ∷ [];
  needs = "y" ∷ [];
  stream = Stream.host;
  masks = Mask.m1 ∷ Mask.m2 ∷ [];
  waits = [];
  host_sync = false;
  pure_of = [];
  per_state = false;
  capturable = true;
  reference_only = false;
}

abbrev dag : List (Node ℕ)
dag = next ∷ pair ∷ []

abbrev walk : Walk ℕ
walk = record { facts = ("x", 3) ∷ []; memo = [] }

next-IsTotal : IsTotal objects next
unfolding holds_all holds subset member key_names
next-IsTotal = record {
  returns =
      λ f h. elim (Option-cases (find "x" f)) [ inl e ↦ cc | inr (v, e) ↦ (v + 1, rw e refl, tt) ];
  keyed = refl;
}

pair-IsTotal : IsTotal objects pair
unfolding holds_all holds subset member key_names
pair-IsTotal = record {
  returns = λ f h. elim (Option-cases (find "y" f)) [
    | inl e ↦ cc
    | inr (v, e) ↦ (v + 1, rw e refl, ((v + 1) ∷ (v + 1 + 1) ∷ [], refl, refl))
  ];
  keyed = refl;
}

run_total_example :
    (w : Walk ℕ) × (run objects dag walk ≡ (ok tt, w))
    × (holds_all (("x" ∷ []) ++ all_gives objects dag) w.facts ≡ true)
unfolding validate_dag check_needs count_nodes subset member is_empty holds_all holds find recall
run_total_example =
    run_total objects dag ("x" ∷ []) walk refl refl (next-IsTotal, (pair-IsTotal, tt))
      ((refl, tt), (tt, tt)) (λ key v h. cc, (λ key v h. cc, tt))

next-keyed :
    (a b : Option ℕ) (key key' : List ℕ)
    → (elim a [ none ↦ raised key_error | some v ↦ ok (v ∷ []) ]) ≡ ok key
    → (elim b [ none ↦ raised key_error | some v ↦ ok (v ∷ []) ]) ≡ ok key'
    → same_all objects key key' ≡ true
    → successor a ≡ successor b
unfolding same_all
next-keyed none b key key' p q s = cc
next-keyed (some v) none key key' p q s = cc
next-keyed (some v) (some w) key key' p q s = ap (λ k. ok (k + 1)) (ground arith)

next-IsPure : IsPure objects next
unfolding subset member key_names read_all
next-IsPure = record {
  keyed = refl;
  function_of_key = λ c f g key key' p q s. next-keyed (find "x" f) (find "x" g) key key' p q s;
}

pair-IsPure : IsPure objects pair
unfolding subset member key_names read_all is_cached is_empty
pair-IsPure = record { keyed = refl; function_of_key = λ c f g key key' p q s. cc }

-- A walk whose memo has the answer of an earlier one.
abbrev warm : Walk ℕ
warm = record {
  facts = ("x", 3) ∷ [];
  memo = record { node = "next"; key = 3 ∷ []; value = 4 } ∷ [];
}

next-answer :
    (a : Option ℕ) (key : List ℕ) (v : ℕ)
    → (elim a [ none ↦ raised key_error | some u ↦ ok (u ∷ []) ]) ≡ ok key
    → recall objects "next" key warm.memo ≡ some v
    → successor a ≡ ok v
unfolding recall same_all
next-answer none key v p h = cc
next-answer (some u) [] v p h = cc
next-answer (some u) (k ∷ key) v p h = ground arith

next-Recalls : Recalls objects warm.memo next
unfolding read_all key_names
next-Recalls c f key v r h = next-answer (find "x" f) key v r h

pair-Recalls : Recalls objects warm.memo pair
unfolding is_cached is_empty
pair-Recalls c f key v r h = cc

run_memo_invisible_example :
    Agree objects (run objects dag warm) (run objects (map plain dag) walk)
    × All (Recalls objects (run objects dag warm).1.memo) dag
run_memo_invisible_example =
    run_memo_invisible objects dag warm [] (next-IsPure, (pair-IsPure, tt))
      ((inl refl, (inr refl, tt)), (inr refl, tt), ((inr refl, (inl refl, tt)), tt, tt))
      (next-Recalls, (pair-Recalls, tt))

run_keeps_supplied_example : find "x" (run objects dag walk).1.facts ≡ some 3
unfolding holds_all holds find member
run_keeps_supplied_example =
    run_keeps_supplied objects dag walk "x" 3 (inr (refl, tt), (inr (refl, (refl, tt)), tt)) refl
