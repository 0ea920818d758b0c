-- ===== src/State/Copy.antt =====
-- The copy of an arena's pages: it returns, and each atom's page is the same in the copy.
use mathlib.Core.Path.{subst}
use rola.Prelude.{
  List, Option, [], ap, arith, get_elem?, get_elem?-set_ne, get_elem?-set_self, get_elem?-some,
  length, length-set, lt→ltb, none, ok, ok_injective, refl, set, some, suc, sym, zero, ℕ, ◌<◌, ◌∙◌,
  ◌∷◌, ◌≡◌, ◌≤◌,
}
use rola.Arena.{is_absent}
use rola.Arena.Table.{slot_count}
use rola.State.Carried.{present_or}
use rola.State.Clone.{present, masked, page_at, index_select, index_copy_pages}

-- Two tables with the same atoms absent, and slots below two bounds.
abbrev pub Paired : ℕ → ℕ → List (Option ℕ) → List (Option ℕ) → Type 0
Paired from_limit to_limit [] [] = Unit
Paired from_limit to_limit [] (t ∷ ts) = ⊥
Paired from_limit to_limit (s ∷ ss) [] = ⊥
Paired from_limit to_limit (none ∷ ss) (none ∷ ts) = Paired from_limit to_limit ss ts
Paired from_limit to_limit (none ∷ ss) (some d ∷ ts) = ⊥
Paired from_limit to_limit (some s ∷ ss) (none ∷ ts) = ⊥
Paired from_limit to_limit (some s ∷ ss) (some d ∷ ts) =
    (s < from_limit) × (d < to_limit) × Paired from_limit to_limit ss ts

module _ {ℓ} {P : Type ℓ} where
  -- The pages that a table names, in order.
  page_at-ok :
      (limit : ℕ) (pages : List P) (s : ℕ)
      → s < limit
      → limit ≤ length pages
      → (page : P) × (get_elem? pages s ≡ some page) × (page_at limit pages (some s) ≡ ok page)
  unfolding page_at present_or
  page_at-ok limit pages s lt le =
      let (page, e) = get_elem?-some pages s (omega arith) in
      (page, e, rw (lt→ltb s limit lt, e) refl)

  pub index_select-ok :
      (limit to_limit : ℕ) (pages : List P) (ss ts : List (Option ℕ))
      → limit ≤ length pages
      → Paired limit to_limit ss ts
      → (chosen : List P) × (index_select limit pages (masked (present ss) ss) ≡ ok chosen)
  unfolding index_select masked present is_absent
  index_select-ok limit to_limit pages [] [] le p = ([], refl)
  index_select-ok limit to_limit pages [] (t ∷ ts) le p = elim p [ ]
  index_select-ok limit to_limit pages (none ∷ ss) [] le p = elim p [ ]
  index_select-ok limit to_limit pages (some s ∷ ss) [] le p = elim p [ ]
  index_select-ok limit to_limit pages (none ∷ ss) (some d ∷ ts) le p = elim p [ ]
  index_select-ok limit to_limit pages (some s ∷ ss) (none ∷ ts) le p = elim p [ ]
  index_select-ok limit to_limit pages (none ∷ ss) (none ∷ ts) le p =
      index_select-ok limit to_limit pages ss ts le p
  index_select-ok limit to_limit pages (some s ∷ ss) (some d ∷ ts) le p =
      let (page, e, got) = page_at-ok limit pages s p.0 le in
      let (rest, r) = index_select-ok limit to_limit pages ss ts le p.2 in
      (page ∷ rest, rw (got, r) refl)

  -- What the copy leaves of the pages that it writes to.
  pub record IsCopied (ss ts : List (Option ℕ)) (from to out : List P) : Type ℓ where
    pub same_length : length out ≡ length to
    pub untouched : (x : ℕ) → slot_count x ts ≡ 0 → get_elem? out x ≡ get_elem? to x
    pub same_page :
        (i s d : ℕ)
        → get_elem? ss i ≡ some (some s)
        → get_elem? ts i ≡ some (some d)
        → get_elem? out d ≡ get_elem? from s

  skipped :
      {ss ts : List (Option ℕ)} {from to out : List P}
      → IsCopied ss ts from to out
      → IsCopied (none ∷ ss) (none ∷ ts) from to out
  unfolding slot_count
  skipped {ss = ss} {ts = ts} {from = from} {to = to} {out = out} k = record {
    same_length = k.same_length;
    untouched = k.untouched;
    same_page = page;
  }
    where
      page :
          (i s d : ℕ)
          → get_elem? (none ∷ ss) i ≡ some (some s)
          → get_elem? (none ∷ ts) i ≡ some (some d)
          → get_elem? out d ≡ get_elem? from s
      page zero s d h g = cc
      page (suc i) s d h g = k.same_page i s d h g

  one_more_page :
      (ss ts : List (Option ℕ)) (from to out : List P) (s d : ℕ) (page : P)
      → get_elem? from s ≡ some page
      → d < length to
      → slot_count d ts ≡ 0
      → IsCopied ss ts from (set to d page) out
      → IsCopied (some s ∷ ss) (some d ∷ ts) from to out
  unfolding slot_count
  one_more_page ss ts from to out s d page e lt once k = record {
    same_length = k.same_length ∙ length-set to d page;
    untouched = λ x h.
        k.untouched x (ground arith) ∙ get_elem?-set_ne to page (λ same. absurd (ground arith));
    same_page = pages;
  }
    where
      pages :
          (i s' d' : ℕ)
          → get_elem? (some s ∷ ss) i ≡ some (some s')
          → get_elem? (some d ∷ ts) i ≡ some (some d')
          → get_elem? out d' ≡ get_elem? from s'
      pages zero s' d' h g =
          ap (get_elem? out) (sym (slot_of g))
          ∙ k.untouched d once
          ∙ get_elem?-set_self to d page lt
          ∙ sym e
          ∙ ap (get_elem? from) (slot_of h)
        where
          slot_of : {x y : ℕ} → some (some x) ≡ some (some y) → x ≡ y
          slot_of h = cc
      pages (suc i) s' d' h g = k.same_page i s' d' h g

  pub index_copy_pages-IsCopied :
      (limit to_limit : ℕ) (from to : List P) (ss ts : List (Option ℕ)) (chosen : List P)
      → limit ≤ length from
      → to_limit ≤ length to
      → Paired limit to_limit ss ts
      → ((x : ℕ) → slot_count x ts ≤ 1)
      → index_select limit from (masked (present ss) ss) ≡ ok chosen
      → (out : List P) × (index_copy_pages to_limit (masked (present ss) ts) chosen to ≡ ok out)
        × IsCopied ss ts from to out
  unfolding index_select index_copy_pages masked present is_absent slot_count
  index_copy_pages-IsCopied limit to_limit from to [] [] chosen le le' p once e = (
    to,
    refl,
    record { same_length = refl; untouched = λ x h. refl; same_page = λ i s d h g. cc },
  )
  index_copy_pages-IsCopied limit to_limit from to [] (t ∷ ts) chosen le le' p once e = elim p [ ]
  index_copy_pages-IsCopied limit to_limit from to (none ∷ ss) [] chosen le le' p once e =
      elim p [ ]
  index_copy_pages-IsCopied limit to_limit from to (some s ∷ ss) [] chosen le le' p once e =
      elim p [ ]
  index_copy_pages-IsCopied limit to_limit from to (none ∷ ss) (some d ∷ ts) chosen le le' p once
        e =
      elim p [ ]
  index_copy_pages-IsCopied limit to_limit from to (some s ∷ ss) (none ∷ ts) chosen le le' p once
        e =
      elim p [ ]
  index_copy_pages-IsCopied limit to_limit from to (none ∷ ss) (none ∷ ts) chosen le le' p once e =
      let (out, r, k) =
        index_copy_pages-IsCopied limit to_limit from to ss ts chosen le le' p once e in
      (out, r, skipped k)
  index_copy_pages-IsCopied limit to_limit from to (some s ∷ ss) (some d ∷ ts) chosen le le' p once
        e =
      let (page, at_page, got) = page_at-ok limit from s p.0 le in
      let (rest, r) = index_select-ok limit to_limit from ss ts le p.2 in
      let (out, r', k) =
        index_copy_pages-IsCopied limit to_limit from (set to d page) ss ts rest le
          (omega (arith, length-set to d page)) p.2 (λ x. ground (arith, once x)) r in
      (
        out,
        subst (λ c. index_copy_pages to_limit (some d ∷ masked (present ss) ts) c to ≡ ok out)
            (ok_injective (page ∷ rest) chosen (rw (got, r) at e)) (rw (lt→ltb d to_limit p.1) r'),
        one_more_page ss ts from to out s d page at_page (omega arith) (ground (arith, once d)) k,
      )
