-- ===== src/Arena/View.antt =====
-- The arena seen from above: which atoms it holds, each with its page, and no slots. An admission is
-- then a map on views.
use mathlib.Core.Path.{subst}
use rola.Arena.Plan.{plan_exact-IsValid}
use rola.Prelude.{
  Bool, List, Option, Option-cases, ap, arith, false, get_elem?, get_elem?-some, get_or, inl, inr,
  length, none, not, ok, refl, some, sym, true, ℕ, ◌<◌, ◌∙◌, ◌≡◌, ◌⊎◌,
}
use rola.Keying.{logical_atoms}
use rola.Arena.{Arena, Bitmap, is_absent, plan_exact}
use rola.Arena.Table.{is_resident}
use rola.Arena.Invariant.{IsValid}
use rola.Arena.Residency.{IsAdmitted, resident-IsExclusive, plan_exact_continued}
use rola.Arena.Fresh.{IsCallScoped, plan_exact_fresh}

module _ {ℓ} {P : Type ℓ} where
  page_in : List P → Option (Option ℕ) → Option P
  page_in pages none = none
  page_in pages (some none) = none
  page_in pages (some (some slot)) = get_elem? pages slot

  -- The page of an atom, if it is resident.
  pub view : Arena P → ℕ → Option P
  unfolding page_in
  view a i = page_in a.value_base (get_elem? a.page_table i)

  -- What an admission means: a held atom keeps its page, and a new one has zeros.
  unfoldable pub admit_view : P → Bool → Option P → Option P
  admit_view zeros asked (some page) = some page
  admit_view zeros true none = some zeros
  admit_view zeros false none = none

  -- A resident atom has its slot's page, and another none.
  pub view_held :
      (a : Arena P) (i s : ℕ)
      → get_elem? a.page_table i ≡ some (some s)
      → view a i ≡ get_elem? a.value_base s
  unfolding view page_in
  view_held a i s h = rw h refl

  pub view_absent : (a : Arena P) (i : ℕ) → is_resident a.page_table i ≡ false → view a i ≡ none
  unfolding view page_in is_absent
  view_absent a i h = from (get_elem? a.page_table i) h
    where
      from :
          (o : Option (Option ℕ))
          → elim o [ none ↦ false | some x ↦ not (is_absent x) ] ≡ false
          → page_in a.value_base o ≡ none
      from none h = refl
      from (some none) h = refl
      from (some (some s)) h = cc

  -- An atom of the table is absent, or it has a slot.
  pub table_cases :
      (a : Arena P) (i : ℕ)
      → i < length a.page_table
      → ((s : ℕ) × (get_elem? a.page_table i ≡ some (some s)))
        ⊎ (get_elem? a.page_table i ≡ some none)
  table_cases a i lt =
      let (entry, e) = get_elem?-some a.page_table i lt in
      elim (Option-cases entry) [
        | inl absent ↦ inr (e ∙ ap some absent)
        | inr (s, at) ↦ inl (s, e ∙ ap some at)
      ]

  pub absent-not_resident :
      (a : Arena P) (i : ℕ)
      → get_elem? a.page_table i ≡ some none
      → is_resident a.page_table i ≡ false
  unfolding is_absent
  absent-not_resident a i h = ap (λ o. elim o [ none ↦ false | some x ↦ not (is_absent x) ]) h

  pub has_slot-resident :
      (a : Arena P) (i s : ℕ)
      → get_elem? a.page_table i ≡ some (some s)
      → is_resident a.page_table i ≡ true
  unfolding is_absent
  has_slot-resident a i s h = ap (λ o. elim o [ none ↦ false | some x ↦ not (is_absent x) ]) h

module _ {ℓ} {P : Type ℓ} (zeros : P) where
  -- The view of an arena whose admission has made atom `i` resident, or has not.
  new_view :
      (bitmap : Bitmap) (a a' : Arena P) (i : ℕ) (asked : Bool)
      → IsAdmitted zeros bitmap a a'
      → get_elem? a.page_table i ≡ some none
      → i < length a'.page_table
      → is_resident a'.page_table i ≡ asked
      → view a' i ≡ admit_view zeros asked none
  unfolding admit_view
  new_view bitmap a a' i false adm h lt r = view_absent a' i r
  new_view bitmap a a' i true adm h lt r = elim (table_cases a' i lt) [
    | inl (s, k) ↦ view_held a' i s k ∙ adm.new_zero i s h k
    | inr absent ↦ cc (absent-not_resident a' i absent)
  ]

  -- Seen from above, a continued admission of a valid arena that returns is `admit_view` at each
  -- atom: what was held stays, with its page, and what is asked for besides has zeros.
  pub plan_exact_refines :
      (bitmap : Bitmap) (a a' : Arena P) (i : ℕ)
      → IsValid zeros a
      → plan_exact zeros bitmap false a ≡ (ok tt, a')
      → i < logical_atoms a.keying
      → view a' i ≡ admit_view zeros (get_or bitmap.bits i false) (view a i)
  unfolding admit_view
  plan_exact_refines bitmap a a' i v run lt = elim (table_cases a i (omega (arith, v.sized.rows))) [
    | inl (s, h) ↦
        let (page, p) =
          get_elem?-some a.value_base s (resident-IsExclusive zeros a i s v h).in_plane in
        view_held a' i s (adm.kept_slot i s h)
        ∙ adm.kept_page i s h
        ∙ p
        ∙ ap (admit_view zeros (get_or bitmap.bits i false)) (sym (view_held a i s h ∙ p))
    | inr h ↦
        new_view bitmap a a' i (get_or bitmap.bits i false) adm h in_table
          (adm.union i lt ∙ rw (absent-not_resident a i h) refl)
        ∙ ap (admit_view zeros (get_or bitmap.bits i false))
            (sym (view_absent a i (absent-not_resident a i h)))
  ]
    where
      adm : IsAdmitted zeros bitmap a a'
      adm = plan_exact_continued zeros bitmap a a' v run

      in_table : i < length a'.page_table
      in_table =
          let v' : IsValid zeros a' =
            subst (IsValid zeros) (ap (λ r. r.1) run) (plan_exact-IsValid zeros bitmap false a v) in
          omega (arith, v'.sized.rows, ap logical_atoms adm.same_keying)

  -- Seen from above, a fresh admission of a valid arena that returns forgets what was held: an atom
  -- that is asked for has zeros, and no other atom is held.
  pub plan_exact_fresh_refines :
      (bitmap : Bitmap) (a a' : Arena P) (i : ℕ)
      → IsValid zeros a
      → plan_exact zeros bitmap true a ≡ (ok tt, a')
      → i < logical_atoms a'.keying
      → view a' i ≡ admit_view zeros (get_or bitmap.bits i false) none
  unfolding admit_view
  plan_exact_fresh_refines bitmap a a' i v run lt =
      elim (table_cases a' i (omega (arith, v'.sized.rows))) [
        | inl (s, h) ↦
            view_held a' i s h
            ∙ scoped.zeroed i s lt h
            ∙ ap (λ b. admit_view zeros b none)
                (sym (has_slot-resident a' i s h) ∙ scoped.residency i lt)
        | inr h ↦
            view_absent a' i (absent-not_resident a' i h)
            ∙ ap (λ b. admit_view zeros b none)
                (sym (absent-not_resident a' i h) ∙ scoped.residency i lt)
      ]
    where
      scoped : IsCallScoped zeros bitmap a'
      scoped = plan_exact_fresh zeros bitmap a a' v run

      v' : IsValid zeros a'
      v' = subst (IsValid zeros) (ap (λ r. r.1) run) (plan_exact-IsValid zeros bitmap true a v)
