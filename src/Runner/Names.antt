-- ===== src/Runner/Names.antt =====
-- The fact bag as a dictionary: what it holds after an assignment, an update and a null seeding.
use text.Mathlib.Text.{◌==◌ as str_eq}
use text.Mathlib.TextEquality.{eq_iff}
use Prim.Native.String.{String}
use rola.Prelude.{
  Bool-cases, List, [], arith, if◌then◌else◌, inl, inr, length, refl, some, true, ◌++◌, ◌∷◌, ◌≡◌,
}
use rola.Runner.{Facts, find, store, holds, store_all, store_missing, holds_all, member, subset}

module _ {ℓ} {V : Type ℓ} where
  pub find-store :
      (j k : String) (v : V) (f : Facts V)
      → find j (store k v f) ≡ (if str_eq k j then some v else find j f)
  unfolding find store
  find-store j k v [] = refl
  find-store j k v ((i, w) ∷ f) =
      ground (arith, eq_iff k j, eq_iff i k, eq_iff i j, find-store j k v f)

  -- Nothing that is held is lost.
  abbrev pub Extends : Facts V → Facts V → Type 0
  Extends f g = (k : String) → holds k f ≡ true → holds k g ≡ true

  pub store-Extends : (k : String) (v : V) (f : Facts V) → Extends f (store k v f)
  unfolding holds
  store-Extends k v f j h = ground (arith, find-store j k v f)

  pub holds-store : (k : String) (v : V) (f : Facts V) → holds k (store k v f) ≡ true
  unfolding holds
  holds-store k v f = ground (arith, find-store k k v f, eq_iff k k)

  pub holds_all-Extends :
      (ks : List String) (f g : Facts V)
      → Extends f g
      → holds_all ks f ≡ true
      → holds_all ks g ≡ true
  unfolding holds_all
  holds_all-Extends [] f g e h = refl
  holds_all-Extends (k ∷ ks) f g e h = ground (arith, e k, holds_all-Extends ks f g e)

  pub holds_all-append :
      (ks js : List String) (f : Facts V)
      → holds_all ks f ≡ true
      → holds_all js f ≡ true
      → holds_all (ks ++ js) f ≡ true
  unfolding holds_all
  holds_all-append [] js f h i = i
  holds_all-append (k ∷ ks) js f h i = ground (arith, holds_all-append ks js f)

  pub holds-member :
      (k : String) (ks : List String) (f : Facts V)
      → holds_all ks f ≡ true
      → member k ks ≡ true
      → holds k f ≡ true
  unfolding holds_all member
  holds-member k [] f h m = cc
  holds-member k (j ∷ ks) f h m = ground (arith, eq_iff j k, holds-member k ks f)

  -- A node whose needs are available finds them in a bag that holds what is available.
  pub holds_all-subset :
      (ks js : List String) (f : Facts V)
      → subset ks js ≡ true
      → holds_all js f ≡ true
      → holds_all ks f ≡ true
  unfolding holds_all subset
  holds_all-subset [] js f s h = refl
  holds_all-subset (k ∷ ks) js f s h = ground (arith, holds-member k js f, holds_all-subset ks js f)

  pub store_all-Extends :
      (ks : List String) (vs : List V) (f : Facts V) → Extends f (store_all ks vs f)
  unfolding store_all
  store_all-Extends [] vs f j h = h
  store_all-Extends (k ∷ ks) [] f j h = h
  store_all-Extends (k ∷ ks) (v ∷ vs) f j h =
      store_all-Extends ks vs (store k v f) j (store-Extends k v f j h)

  pub holds_all-store_all :
      (ks : List String) (vs : List V) (f : Facts V)
      → length vs ≡ length ks
      → holds_all ks (store_all ks vs f) ≡ true
  unfolding store_all holds_all
  holds_all-store_all [] vs f h = refl
  holds_all-store_all (k ∷ ks) [] f h = absurd (omega arith)
  holds_all-store_all (k ∷ ks) (v ∷ vs) f h = ground (
    arith,
    store_all-Extends ks vs (store k v f) k (holds-store k v f),
    holds_all-store_all ks vs (store k v f) (omega arith),
  )

  pub store_missing-Extends :
      (null : V) (ks : List String) (f : Facts V) → Extends f (store_missing null ks f)
  unfolding store_missing
  store_missing-Extends null [] f j h = h
  store_missing-Extends null (k ∷ ks) f j h = elim (Bool-cases (holds k f)) [
    | inl old ↦ rw old (store_missing-Extends null ks f j h)
    | inr new ↦
        rw new (store_missing-Extends null ks (store k null f) j (store-Extends k null f j h))
  ]

  pub holds_all-store_missing :
      (null : V) (ks : List String) (f : Facts V) → holds_all ks (store_missing null ks f) ≡ true
  unfolding store_missing holds_all
  holds_all-store_missing null [] f = refl
  holds_all-store_missing null (k ∷ ks) f = elim (Bool-cases (holds k f)) [
    | inl old ↦
        rw old
          (ground (arith, store_missing-Extends null ks f k old, holds_all-store_missing null ks f))
    | inr new ↦ rw new (
        ground (
          arith,
          store_missing-Extends null ks (store k null f) k (holds-store k null f),
          holds_all-store_missing null ks (store k null f),
        ))
  ]
