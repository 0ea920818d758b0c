-- ===== src/State/Copied.antt =====
-- The arena of a clone: it is valid, and seen from above it is the arena that it was made from.
use mathlib.Core.Path.{subst}
use rola.Prelude.{
  Exception, List, Option, Result, [], ap, arith, false, get_or, inl, inr, length, none, ok, raised,
  refl, some, suc, sym, true, zero, ℕ, ◌<◌, ◌>>=◌, ◌∙◌, ◌∷◌, ◌≡◌, ◌⊎◌,
}
use rola.Keying.{logical_atoms}
use rola.Arena.{Arena, is_absent, mapped_pages, plan_exact}
use rola.Arena.Create.{constructed}
use rola.Arena.Plan.{plan_exact-IsValid, plan_exact-keying}
use rola.Arena.Fresh.{plan_exact_fresh}
use rola.Arena.Table.{is_resident, slot_count}
use rola.Arena.Invariant.{IsValid}
use rola.Arena.View.{
  view, view_held, view_absent, table_cases, absent-not_resident, has_slot-resident,
}
use rola.State.Clone.{present, state_pages, copied, copy_arena, resident_bitmap}
use rola.State.Copy.{Paired, IsCopied, index_select-ok, index_copy_pages-IsCopied}

-- Tables with the same atoms resident, whose slots are below two bounds, are paired.
resident-Paired :
    (low high : ℕ) (ss ts : List (Option ℕ))
    → length ss ≡ length ts
    → ((i : ℕ) → i < length ss → is_resident ss i ≡ is_resident ts i)
    → ((x : ℕ) → 0 < slot_count x ss → x < low)
    → ((x : ℕ) → 0 < slot_count x ts → x < high)
    → Paired low high ss ts
unfolding is_absent slot_count
resident-Paired low high [] [] e r b c = tt
resident-Paired low high [] (t ∷ ts) e r b c = absurd (omega (arith, e))
resident-Paired low high (s ∷ ss) [] e r b c = absurd (omega (arith, e))
resident-Paired low high (none ∷ ss) (none ∷ ts) e r b c =
    resident-Paired low high ss ts (omega (arith, e)) (λ i lt. r (suc i) (omega arith)) b c
resident-Paired low high (none ∷ ss) (some d ∷ ts) e r b c =
    absurd (ground (arith, r 0 (omega arith)))
resident-Paired low high (some s ∷ ss) (none ∷ ts) e r b c =
    absurd (ground (arith, r 0 (omega arith)))
resident-Paired low high (some s ∷ ss) (some d ∷ ts) e r b c = (
  b s (ground arith),
  c d (ground arith),
  resident-Paired low high ss ts (omega (arith, e)) (λ i lt. r (suc i) (omega arith))
      (λ x h. b x (ground arith)) (λ x h. c x (ground arith)),
)

module _ {ℓ} {P : Type ℓ} (zeros : P) where
  -- In a valid arena a slot that an atom has is in the extent of `state`.
  slot-lt :
      (a : Arena P) (x : ℕ) → IsValid zeros a → 0 < slot_count x a.page_table → x < state_pages a
  unfolding state_pages
  slot-lt a x v h = ground (arith, v.owned_once x, v.bounded, v.mapped, v.sized.plane)

  rewritten-IsValid :
      (c : Arena P) (out : List P) (ss : List (Option ℕ)) (from : List P)
      → IsValid zeros c
      → IsCopied ss c.page_table from c.value_base out
      → IsValid zeros (record c { value_base = out })
  unfolding mapped_pages
  rewritten-IsValid c out ss from v k = record {
    sized = record {
      plane = k.same_length ∙ v.sized.plane;
      capacity = v.sized.capacity;
      extent_pos = v.sized.extent_pos;
      pool_small = v.sized.pool_small;
      backs = v.sized.backs;
      rows = v.sized.rows;
    };
    bounded = v.bounded;
    mapped = v.mapped;
    owned_once = v.owned_once;
    pool_off = v.pool_off;
    pool_zero = λ s used. k.untouched s (ground (arith, v.owned_once s)) ∙ v.pool_zero s used;
  }

  -- The arena of a clone against its source.
  pub record IsCopyOf (source copy : Arena P) : Type ℓ where
    pub valid : IsValid zeros copy
    pub same_keying : copy.keying ≡ source.keying
    pub same_pages : (i : ℕ) → i < logical_atoms source.keying → view copy i ≡ view source i

  copied-IsCopyOf :
      (a c : Arena P)
      → IsValid zeros a
      → IsValid zeros c
      → c.keying ≡ a.keying
      → ((i : ℕ)
          → i < logical_atoms a.keying
          → is_resident c.page_table i ≡ is_resident a.page_table i)
      → (c' : Arena P) × (copied a c ≡ ok c') × IsCopyOf a c'
  unfolding copied state_pages
  copied-IsCopyOf a c v w e r =
      let p : Paired (state_pages a) (state_pages c) a.page_table c.page_table =
        resident-Paired (state_pages a) (state_pages c) a.page_table c.page_table
          (omega (arith, v.sized.rows, w.sized.rows, ap logical_atoms e))
          (λ i lt. sym (r i (omega (arith, v.sized.rows)))) (λ x h. slot-lt a x v h)
          (λ x h. slot-lt c x w h) in
      let (chosen, got) =
        index_select-ok (state_pages a) (state_pages c) a.value_base a.page_table c.page_table
          (omega arith) p in
      let (out, put, k) =
        index_copy_pages-IsCopied (state_pages a) (state_pages c) a.value_base c.value_base
          a.page_table c.page_table chosen (omega arith) (omega arith) p
          (λ x. ground (arith, w.owned_once x)) got in
      (
        record c { value_base = out },
        rw (got, put) refl,
        record {
          valid = rewritten-IsValid c out a.page_table a.value_base w k;
          same_keying = e;
          same_pages = λ i lt. same i lt out k;
        },
      )
    where
      same :
          (i : ℕ)
          → i < logical_atoms a.keying
          → (out : List P) → IsCopied a.page_table c.page_table a.value_base c.value_base out
          → view (record c { value_base = out }) i ≡ view a i
      same i lt out k = elim (table_cases a i (omega (arith, v.sized.rows))) [
        | inr h ↦
            view_absent (record c { value_base = out }) i (r i lt ∙ absent-not_resident a i h)
            ∙ sym (view_absent a i (absent-not_resident a i h))
        | inl (s, h) ↦ elim (table_cases c i (omega (arith, w.sized.rows, ap logical_atoms e))) [
          | inr g ↦ cc (absent-not_resident c i g, r i lt, has_slot-resident a i s h)
          | inl (d, g) ↦
              view_held (record c { value_base = out }) i d g
              ∙ k.same_page i s d h g
              ∙ sym (view_held a i s h)
        ]
      ]

get_or-present :
    (table : List (Option ℕ)) (i : ℕ) → get_or (present table) i false ≡ is_resident table i
unfolding present is_absent
get_or-present [] i = refl
get_or-present (t ∷ table) zero = refl
get_or-present (t ∷ table) (suc i) = get_or-present table i

module _ {ℓ} {P : Type ℓ} (zeros : P) where
  -- The copy into a valid arena of the same keying returns, with the same pages, unless its plan
  -- raises, and then it raises as that did.
  pub copy_arena_cases :
      (a b : Arena P)
      → IsValid zeros a
      → IsValid zeros b
      → b.keying ≡ a.keying
      → ((c : Arena P) × (copy_arena zeros a b ≡ ok c) × IsCopyOf zeros a c)
        ⊎ ((e : Exception) × ((plan_exact zeros (resident_bitmap a) true b).0 ≡ raised e)
            × (copy_arena zeros a b ≡ raised e))
  unfolding copy_arena resident_bitmap constructed
  copy_arena_cases a b v w e = from (plan_exact zeros (resident_bitmap a) true b) refl
    where
      from :
          (out : Result (Unit {0}) × Arena P)
          → plan_exact zeros (resident_bitmap a) true b ≡ out
          → ((c : Arena P) × ((constructed out >>= λ arena. copied a arena) ≡ ok c)
              × IsCopyOf zeros a c)
            ⊎ ((x : Exception) × (out.0 ≡ raised x)
                × ((constructed out >>= λ arena. copied a arena) ≡ raised x))
      from (raised x, c) run = inr (x, refl, refl)
      from (ok t, c) run =
          let valid : IsValid zeros c =
            subst (IsValid zeros) (ap (λ r. r.1) run)
              (plan_exact-IsValid zeros (resident_bitmap a) true b w) in
          let keyed : c.keying ≡ a.keying =
            sym (ap (λ r. r.1.keying) run)
            ∙ plan_exact-keying zeros (resident_bitmap a) true b w
            ∙ e in
          let scoped = plan_exact_fresh zeros (resident_bitmap a) b c w run in
          let (c', done, k) = copied-IsCopyOf zeros a c v valid keyed (λ i lt.
            scoped.residency i (omega (arith, ap logical_atoms keyed))
            ∙ get_or-present a.page_table i) in
          inl (c', done, k)
