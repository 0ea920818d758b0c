-- ===== src/Runner/Memo.antt =====
-- The memos of `run`: what a recalled answer is. That no walk can see them is `Memo/Plain`.
pub mod Plain
use text.Mathlib.Text.{◌==◌ as str_eq}
use rola.Prelude.{
  All, Bool-cases, List, Option-cases, Result, [], arith, false, if◌then◌else◌, inl, inr, none, ok,
  raised, refl, some, sym, true, ◌&&◌, ◌==◌, ◌∙◌, ◌∷◌, ◌≡◌, ◌⊎◌,
}
use mathlib.Core.Path.{subst}
use rola.Runner.{
  Facts, Objects, Node, Entry, Walk, holds_all, subset, read_all, key_names, is_cached, same_all,
  recall, remember, call, recalled, produce,
}
use rola.Runner.Complete.{read_all_lem}
use rola.Runner.Names

-- The same node, declared with no memo.
pub plain {ℓ} : {V : Type ℓ} → Node V → Node V
plain n = record n { pure_of = []; per_state = false }

module _ {ℓ} {V : Type ℓ} (o : Objects V) where
  -- The names of the node's key are among its needs, and a node with a memo is a function of them.
  pub record IsPure (n : Node V) : Type ℓ where
    pub keyed : subset (key_names n) n.needs ≡ true
    pub function_of_key :
        is_cached n ≡ true
        → (f g : Facts V) (key key' : List V) → read_all (key_names n) f ≡ ok key
        → read_all (key_names n) g ≡ ok key'
        → same_all o key key' ≡ true
        → n.fn f ≡ n.fn g

  -- What is recalled for a key of a node with a memo is what the node would produce.
  abbrev pub Recalls : List (Entry V) → Node V → Type ℓ
  Recalls memo n =
      is_cached n ≡ true
      → (f : Facts V) (key : List V) (v : V) → read_all (key_names n) f ≡ ok key
      → recall o n.name key memo ≡ some v
      → n.fn f ≡ ok v

  -- Two nodes are one node, or have different names, and so different memos.
  abbrev pub Apart : Node V → Node V → Type ℓ
  Apart n m = (m ≡ n) ⊎ (str_eq n.name m.name ≡ false)

  -- Each node of `dag` against the nodes of `whole` and those after it.
  abbrev pub MemosApart : List (Node V) → List (Node V) → Type ℓ
  MemosApart whole [] = Unit
  MemosApart whole (n ∷ dag) = All (Apart n) whole × All (Apart n) dag × MemosApart whole dag

  Recalls-head :
      (n : Node V) (f : Facts V) (key : List V) (v : V) (memo : List (Entry V))
      → IsPure n
      → read_all (key_names n) f ≡ ok key
      → n.fn f ≡ ok v
      → Recalls memo n
      → Recalls (record { node = n.name; key = key; value = v } ∷ memo) n
  unfolding recall
  Recalls-head n f key v memo p r e s c g k u q h =
      elim (Bool-cases (str_eq n.name n.name && same_all o key k)) [
        | inl hit ↦ sym (p.function_of_key c f g key k r q (ground arith)) ∙ e ∙ ground arith
        | inr miss ↦ s c g k u q (ground arith)
      ]

  remember-Recalls :
      (n : Node V) (f : Facts V) (key : List V) (v : V) (memo : List (Entry V)) (l : List (Node V))
      → IsPure n
      → read_all (key_names n) f ≡ ok key
      → n.fn f ≡ ok v
      → All (Apart n) l
      → All (Recalls memo) l
      → All (Recalls (record { node = n.name; key = key; value = v } ∷ memo)) l
  unfolding recall
  remember-Recalls n f key v memo [] p r e d s = tt
  remember-Recalls n f key v memo (m ∷ l) p r e d s =
      (at_head d.0, remember-Recalls n f key v memo l p r e d.1 s.1)
    where
      at_head : Apart n m → Recalls (record { node = n.name; key = key; value = v } ∷ memo) m
      at_head (inl same) =
          subst (Recalls (record { node = n.name; key = key; value = v } ∷ memo)) (sym same)
            (Recalls-head n f key v memo p r e (subst (Recalls memo) same s.0))
      at_head (inr other) = λ c g k u q h. s.0 c g k u q (ground arith)

  -- Called or recalled, a node answers what its function does and leaves the facts alone.
  pub record IsAnswered (n : Node V) (w : Walk V) (out : Result V × Walk V) : Type ℓ where
    pub answer : out.0 ≡ n.fn w.facts
    pub same_facts : out.1.facts ≡ w.facts
    pub recalls :
        (l : List (Node V)) → All (Apart n) l → All (Recalls w.memo) l → All (Recalls out.1.memo) l

  call_lem :
      (n : Node V) (w : Walk V) (key : List V)
      → IsPure n
      → read_all (key_names n) w.facts ≡ ok key
      → IsAnswered n w (call o n key w)
  unfolding call
  call_lem n w key p r = by_result (n.fn w.facts) refl
    where
      by_result : (a : Result V) → n.fn w.facts ≡ a → IsAnswered n w (remember o n key a w)
      by_result (raised e) q = record { answer = sym q; same_facts = refl; recalls = λ l d s. s }
      by_result (ok v) q = elim (Bool-cases (is_cached n)) [
        | inl cached ↦ rw cached (record {
          answer = sym q;
          same_facts = refl;
          recalls = λ l d s. remember-Recalls n w.facts key v w.memo l p r q d s;
        })
        | inr uncached ↦
            rw uncached (record { answer = sym q; same_facts = refl; recalls = λ l d s. s })
      ]

  pub produce_answers :
      (n : Node V) (w : Walk V)
      → IsPure n
      → holds_all n.needs w.facts ≡ true
      → Recalls w.memo n
      → IsAnswered n w (produce o n w)
  unfolding produce recalled
  produce_answers n w p held s =
      let (key, r) =
        read_all_lem o (key_names n) w.facts
          (Names.holds_all-subset (key_names n) n.needs w.facts p.keyed held) in
      elim (Option-cases (if is_cached n then recall o n.name key w.memo else none)) [
        | inl miss ↦ rw (r, miss) (call_lem n w key p r)
        | inr (v, hit) ↦
            rw (r, hit)
              (record {
                answer = sym (s (ground arith) w.facts key v r (ground arith));
                same_facts = refl;
                recalls = λ l d t. t;
              })
      ]

  -- Two outcomes with one result, and one bag.
  abbrev pub Agree : Result (Unit {0}) × Walk V → Result (Unit {0}) × Walk V → Type ℓ
  Agree out out' = (out.0 ≡ out'.0) × (out.1.facts ≡ out'.1.facts)
