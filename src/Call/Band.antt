-- ===== src/Call/Band.antt =====
-- The state band of a chunk call: what the mask leaves out of the walk.
use rola.Prelude.{
  Bool, Exception, List, Option, Result, [], ap, false, inl, inr, none, not, ok, raised, refl, some,
  sym, true, ◌||◌, ◌∙◌, ◌∷◌, ◌≡◌, ◌⊎◌,
}
use mathlib.Core.Path.{subst}
use Prim.Native.String.{String}
use rola.Rules.{Mask, mask}
use rola.Runner.{
  Objects, Facts, Walk, find, holds, holds_all, store, store_all, store_missing, is_masked,
  is_empty, is_cached, key_names, read_all, remember, call, recalled, produce, spread, spread_into,
  walk_node,
}
use rola.Runner.Names
use rola.Call.{classify_call, residency}
use rola.Call.Dag.{residency_node}

is_mask : Mask → Mask → Bool
is_mask Mask.m1 Mask.m1 = true
is_mask Mask.m2 Mask.m2 = true
is_mask Mask.m3 Mask.m3 = true
is_mask Mask.m4 Mask.m4 = true
is_mask _ _ = false

pub is_among : Mask → List Mask → Bool
unfolding is_mask
is_among m [] = false
is_among m (n ∷ masks) = is_mask m n || is_among m masks

-- How the objects of a walk stand for the facts of the band: None for an absent plane or arena, a
-- pair for the two names of a node, and a member of `Mask`, which `in` finds in a tuple.
pub record Coding {ℓ κ} {V : Type ℓ} (o : Objects V) (A : Type κ) : Type (ℓ ⊔ κ) where
  pub embed : Option A → V
  pub embed_none : embed none ≡ o.null
  pub pack : V → V → V
  pub unpack : (x y : V) → o.items (pack x y) ≡ some (x ∷ y ∷ [])
  pub mask_object : Mask → V
  pub mask_present : (m : Mask) → o.is_null (mask_object m) ≡ false
  pub mask_in : (m : Mask) (masks : List Mask) → o.in_masks (mask_object m) masks ≡ is_among m masks

module _ {ℓ κ} {S : Type ℓ} {A : Type κ} where
  -- The mask of a call keeps the residency band, or the node has nothing to give.
  mask_cases :
      (wants : S → Bool → Bool) (entry : S → Result (Option A × Option A))
      (given_state_in : Option A) (state : Option S) (want_state : Bool) (given_arena : Option A)
      (paging grad : Bool)
      → (mask (classify_call wants given_state_in state want_state given_arena paging grad)
          ≡ Mask.m2)
        ⊎ ((mask (classify_call wants given_state_in state want_state given_arena paging grad)
              ≡ Mask.m1)
            × (residency entry given_state_in state given_arena ≡ ok (none, none)))
  unfolding residency mask classify_call
  mask_cases wants entry none none false none paging grad = inr (refl, refl)
  mask_cases wants entry none none true none paging grad = inl refl
  mask_cases wants entry none none false (some a) paging grad = inl refl
  mask_cases wants entry none none true (some a) paging grad = inl refl
  mask_cases wants entry none (some s) want a paging grad = inl refl
  mask_cases wants entry (some p) none want a paging grad = inl refl
  mask_cases wants entry (some p) (some s) want a paging grad = inl refl

module _ {ℓ κ} {V : Type ℓ} {A : Type κ} (o : Objects V) (c : Coding o A) where
  -- What the node's function returns, as an object.
  unfoldable pub coded : Result (Option A × Option A) → Result V
  coded (raised e) = raised e
  coded (ok (plane, arena)) = ok (c.pack (c.embed plane) (c.embed arena))

  -- The facts of the band after its node: what `residency` gives, or its exception.
  pub data Leaves (r : Result (Option A × Option A)) (w : Walk V) (out : Result (Unit {0}) × Walk V)
      : Type (ℓ ⊔ κ) where
    gave :
        (plane arena : Option A) (w' : Walk V)
        → r ≡ ok (plane, arena)
        → out ≡ (ok tt, w')
        → find "state_in" w'.facts ≡ some (c.embed plane)
        → find "arena" w'.facts ≡ some (c.embed arena)
        → Leaves r w out
    stopped : (e : Exception) → r ≡ raised e → out ≡ (raised e, w) → Leaves r w out

  not_held : (k : String) (f : Facts V) → find k f ≡ none → holds k f ≡ false
  unfolding holds
  not_held k f e = cc

  -- What is held after both names are stored.
  stored_both :
      (x y : V) (f : Facts V)
      → (find "state_in" (store "arena" y (store "state_in" x f)) ≡ some x)
        × (find "arena" (store "arena" y (store "state_in" x f)) ≡ some y)
  stored_both x y f = (
    Names.find-store "state_in" "arena" y (store "state_in" x f)
        ∙ Names.find-store "state_in" "state_in" x f,
    Names.find-store "arena" "arena" y (store "state_in" x f),
  )

  masks_as :
      (body : String → Facts V → Result V) (f : Facts V) (m : Mask)
      → find "mask" f ≡ some (c.mask_object m)
      → is_masked o (residency_node body) f ≡ not (is_among m (Mask.m2 ∷ []))
  unfolding is_masked
  masks_as body f m e = cc (e, c.mask_present m, c.mask_in m (Mask.m2 ∷ []))

  module _ (body : String → Facts V → Result V) (w : Walk V) where
    masked_out :
        find "mask" w.facts ≡ some (c.mask_object Mask.m1)
        → find "state_in" w.facts ≡ none
        → find "arena" w.facts ≡ none
        → Leaves (ok (none, none)) w (walk_node o (residency_node body) w)
    unfolding walk_node is_among is_mask store_missing
    masked_out m p a =
        let g = store "arena" o.null (store "state_in" o.null w.facts) in
        let no_arena : find "arena" (store "state_in" o.null w.facts) ≡ none =
          Names.find-store "arena" "state_in" o.null w.facts ∙ a in
        let both = stored_both o.null o.null w.facts in
        gave none none (record w { facts = g }) refl
          (rw
            (
              masks_as body w.facts Mask.m1 m,
              not_held "state_in" w.facts p,
              not_held "arena" (store "state_in" o.null w.facts) no_arena,
            )
            refl)
          (both.0 ∙ ap some (sym c.embed_none)) (both.1 ∙ ap some (sym c.embed_none))

    called_out :
        (r : Result (Option A × Option A))
        → find "mask" w.facts ≡ some (c.mask_object Mask.m2)
        → find "state_in" w.facts ≡ none
        → holds_all (residency_node body).needs w.facts ≡ true
        → body "residency" w.facts ≡ coded r
        → Leaves r w (walk_node o (residency_node body) w)
    unfolding walk_node is_among is_mask is_empty holds_all produce key_names is_cached read_all
        recalled call remember spread_into spread store_all coded
    called_out (ok (plane, arena)) m p held b =
        let x = c.embed plane in
        let y = c.embed arena in
        let both = stored_both x y w.facts in
        gave plane arena (record w { facts = store "arena" y (store "state_in" x w.facts) }) refl
          (rw
            (masks_as body w.facts Mask.m2 m, not_held "state_in" w.facts p, held, b, c.unpack x y)
            refl)
          both.0 both.1
    called_out (raised e) m p held b =
        stopped e refl
          (rw (masks_as body w.facts Mask.m2 m, not_held "state_in" w.facts p, held, b) refl)

    -- In a walk whose mask is that of the call, with no fact of the band yet and the needs of the
    -- node in the bag, the runner's step at the residency node leaves for the band what `residency`
    -- gives, or raises what it raises: where the mask leaves the node out, its None for both names
    -- is what the node itself would have given.
    pub walk_node-residency {μ} :
        {S : Type μ} (wants : S → Bool → Bool) (entry : S → Result (Option A × Option A))
        (given_state_in : Option A) (state : Option S) (want_state : Bool) (given_arena : Option A)
        (paging grad : Bool)
        → find "mask" w.facts
          ≡ some (
              c.mask_object (
                mask (classify_call wants given_state_in state want_state given_arena paging grad)))
        → find "state_in" w.facts ≡ none
        → find "arena" w.facts ≡ none
        → holds_all (residency_node body).needs w.facts ≡ true
        → body "residency" w.facts ≡ coded (residency entry given_state_in state given_arena)
        → Leaves
            (residency entry given_state_in state given_arena)
            w
            (walk_node o (residency_node body) w)
    walk_node-residency wants entry given_state_in state want_state given_arena paging grad m p a
          held b =
        elim (mask_cases wants entry given_state_in state want_state given_arena paging grad) [
          | inl stateful ↦
              called_out (residency entry given_state_in state given_arena)
                (m ∙ ap (λ k. some (c.mask_object k)) stateful) p held b
          | inr (stateless, empty) ↦
              subst (λ r. Leaves r w (walk_node o (residency_node body) w)) (sym empty)
                (masked_out (m ∙ ap (λ k. some (c.mask_object k)) stateless) p a)
        ]
