-- ===== src/Routing/Sides.antt =====
-- The columns of the two sides in the packed router.
use rola.Prelude.{
  All, List, [], ap, arith, false, get_or, length, map, ok, refl, suc, sum, sym, true, zero, ℕ,
  ◌++◌, ◌+◌, ◌<◌, ◌∙◌, ◌∷◌, ◌≡◌, ◌≤◌,
}
use mathlib.Core.List.{append-nil}
use rola.Tensor.{arange}
use rola.Tensor.Laws.{length-arange}
use rola.Routing.{LevelRouting}
use rola.Routing.Packed.{
  branches, is_tied, untied_from, untied_levels, packed_slot_count, read_slots_from,
  packed_read_slot_lookup, packed_slot_level, packed_slot_widths, offsets_from, packed_slot_offsets,
  last, packed_router_width, packed_column_runs, level_offsets, packed_logit_width,
}
use rola.Routing.Columns.{consecutive_run, length-packed_slot_widths}

pub last-offsets_from : (o : ℕ) (ws : List ℕ) → last (offsets_from o ws) ≡ o + sum ws
unfolding last offsets_from
last-offsets_from o [] = omega arith
last-offsets_from o (w ∷ []) = omega arith
last-offsets_from o (w ∷ v ∷ ws) = omega (arith, last-offsets_from (o + w) (v ∷ ws))

offsets_from-append :
    (o : ℕ) (xs ys : List ℕ) → get_or (offsets_from o (xs ++ ys)) (length xs) 0 ≡ o + sum xs
unfolding offsets_from
offsets_from-append o [] [] = omega arith
offsets_from-append o [] (y ∷ ys) = omega arith
offsets_from-append o (x ∷ xs) ys = omega (arith, offsets_from-append (o + x) xs ys)

map-append_ℕ : (f : ℕ → ℕ) (xs ys : List ℕ) → map f (xs ++ ys) ≡ map f xs ++ map f ys
map-append_ℕ f [] ys = refl
map-append_ℕ f (x ∷ xs) ys = ap (◌∷◌ (f x)) (map-append_ℕ f xs ys)

map-arange-suc :
    (f : ℕ → ℕ) (a n : ℕ) → map f (arange (suc a) n) ≡ map (λ i. f (suc i)) (arange a n)
unfolding arange
map-arange-suc f a zero = refl
map-arange-suc f a (suc n) = ap (◌∷◌ (f (suc a))) (map-arange-suc f (suc a) n)

-- The entries of a list, read one after the other.
map-get_or : (xs : List ℕ) → map (λ l. get_or xs l 0) (arange 0 (length xs)) ≡ xs
unfolding arange
map-get_or [] = refl
map-get_or (x ∷ xs) =
    ap (◌∷◌ x) (map-arange-suc (λ l. get_or (x ∷ xs) l 0) 0 (length xs) ∙ map-get_or xs)

length-branches : (levels : List LevelRouting) → length (branches levels) ≡ length levels
unfolding branches
length-branches [] = refl
length-branches (level ∷ levels) = ap suc (length-branches levels)

untied_from-all :
    (i : ℕ) (levels : List LevelRouting)
    → All (λ l. is_tied l ≡ false) levels
    → untied_from i levels ≡ arange i (length levels)
unfolding untied_from arange
untied_from-all i [] p = refl
untied_from-all i (level ∷ levels) p = rw p.0 (ap (◌∷◌ i) (untied_from-all (suc i) levels p.1))

read_slots_from-untied :
    (i slot : ℕ) (levels : List LevelRouting)
    → All (λ l. is_tied l ≡ false) levels
    → read_slots_from i slot levels ≡ arange slot (length levels)
unfolding read_slots_from arange
read_slots_from-untied i slot [] p = refl
read_slots_from-untied i slot (level ∷ levels) p =
    rw p.0 (ap (◌∷◌ slot) (read_slots_from-untied (suc i) (suc slot) levels p.1))

read_slots_from-tied :
    (i slot : ℕ) (levels : List LevelRouting)
    → All (λ l. is_tied l ≡ true) levels
    → read_slots_from i slot levels ≡ arange i (length levels)
unfolding read_slots_from arange
read_slots_from-tied i slot [] p = refl
read_slots_from-tied i slot (level ∷ levels) p =
    rw p.0 (ap (◌∷◌ i) (read_slots_from-tied (suc i) slot levels p.1))

module _ (levels : List LevelRouting) where
  read_widths : List ℕ
  read_widths = map (λ l. get_or (branches levels) l 0) (untied_levels levels)

  packed_slot_widths-split : packed_slot_widths levels ≡ branches levels ++ read_widths
  unfolding packed_slot_widths packed_slot_level read_widths
  packed_slot_widths-split =
      map-append_ℕ _ (arange 0 (length levels)) (untied_levels levels)
      ∙ ap (λ ws. ws ++ read_widths)
          (ap (λ n. map (λ l. get_or (branches levels) l 0) (arange 0 n))
              (sym (length-branches levels))
            ∙ map-get_or (branches levels))

  first_offset : get_or (packed_slot_offsets levels) 0 0 ≡ 0
  unfolding packed_slot_offsets
  first_offset =
      rw packed_slot_widths-split (offsets_from-append 0 [] (branches levels ++ read_widths))

  write_offset : get_or (packed_slot_offsets levels) (length levels) 0 ≡ packed_logit_width levels
  unfolding packed_slot_offsets packed_logit_width level_offsets
  write_offset =
      ap (λ ws. get_or (offsets_from 0 ws) (length levels) 0) packed_slot_widths-split
      ∙ ap (λ n. get_or (offsets_from 0 (branches levels ++ read_widths)) n 0)
          (sym (length-branches levels))
      ∙ offsets_from-append 0 (branches levels) read_widths
      ∙ sym (last-offsets_from 0 (branches levels))

  router_offset :
      get_or (packed_slot_offsets levels) (packed_slot_count levels) 0 ≡ packed_router_width levels
  unfolding packed_slot_offsets packed_router_width
  router_offset =
      ap (λ n. get_or (offsets_from 0 (packed_slot_widths levels)) n 0)
        (sym (length-packed_slot_widths levels))
      ∙ ap (λ ws. get_or (offsets_from 0 ws) (length (packed_slot_widths levels)) 0)
          (sym (append-nil (packed_slot_widths levels)))
      ∙ offsets_from-append 0 (packed_slot_widths levels) []
      ∙ sym (last-offsets_from 0 (packed_slot_widths levels))

  read_slots :
      All (λ l. is_tied l ≡ false) levels → packed_slot_count levels ≡ length levels + length levels
  unfolding packed_slot_count untied_levels
  read_slots p =
      omega (arith, ap length (untied_from-all 0 levels p), length-arange 0 (length levels))

-- Over a level at least, the columns of the write slots are one run from 0, as wide as the packed
-- logits, and those of all the slots are one run from 0, as wide as the packed router: no column is
-- left over, and none is taken twice.
pub packed_sides :
    (levels : List LevelRouting)
    → 0 < length levels
    → (packed_column_runs levels (arange 0 (length levels))
        ≡ ok ((0, packed_logit_width levels) ∷ []))
      × (packed_column_runs levels (arange 0 (packed_slot_count levels))
          ≡ ok ((0, packed_router_width levels) ∷ []))
unfolding packed_slot_count
packed_sides levels pos = (
  one_run (length levels) pos (omega arith)
      ∙ (λ i. ok ((first_offset levels i, write_offset levels i) ∷ [])),
  one_run (packed_slot_count levels) (omega (arith, pos)) (omega arith)
      ∙ (λ i. ok ((first_offset levels i, router_offset levels i) ∷ [])),
)
  where
    one_run :
        (n : ℕ)
        → 0 < n
        → n ≤ packed_slot_count levels
        → packed_column_runs levels (arange 0 n)
          ≡ ok (
              (get_or (packed_slot_offsets levels) 0 0, get_or (packed_slot_offsets levels) n 0)
              ∷ [])
    one_run zero pos le = absurd (omega arith)
    one_run (suc n) pos le =
        consecutive_run levels 0 n (omega (arith, le))
        ∙ ap
            (λ j. ok (
              (get_or (packed_slot_offsets levels) 0 0, get_or (packed_slot_offsets levels) j 0)
              ∷ []))
            {x = 0 + suc n} {y = suc n} (omega arith)

-- The read side of a plan of untied levels, one at least, is the run behind the write side, up to
-- the end of the router.
pub untied_read_side :
    (levels : List LevelRouting)
    → 0 < length levels
    → All (λ l. is_tied l ≡ false) levels
    → packed_column_runs levels (packed_read_slot_lookup levels)
      ≡ ok ((packed_logit_width levels, packed_router_width levels) ∷ [])
unfolding packed_read_slot_lookup
untied_read_side levels pos p =
    ap (packed_column_runs levels) (read_slots_from-untied 0 (length levels) levels p)
    ∙ one_run (length levels) pos refl
  where
    one_run :
        (n : ℕ)
        → 0 < n
        → n ≡ length levels
        → packed_column_runs levels (arange (length levels) n)
          ≡ ok ((packed_logit_width levels, packed_router_width levels) ∷ [])
    one_run zero pos e = absurd (omega arith)
    one_run (suc n) pos e =
        consecutive_run levels (length levels) n (omega (arith, e, read_slots levels p))
        ∙ (λ i. ok ((write_offset levels i, stop i) ∷ []))
      where
        stop :
            get_or (packed_slot_offsets levels) (length levels + suc n) 0
            ≡ packed_router_width levels
        stop =
            ap (λ j. get_or (packed_slot_offsets levels) j 0) {x = length levels + suc n}
              {y = packed_slot_count levels} (omega (arith, e, read_slots levels p))
            ∙ router_offset levels

-- The read side of a plan of tied levels is the write side.
pub tied_read_side :
    (levels : List LevelRouting)
    → All (λ l. is_tied l ≡ true) levels
    → packed_read_slot_lookup levels ≡ arange 0 (length levels)
unfolding packed_read_slot_lookup
tied_read_side levels p = read_slots_from-tied 0 (length levels) levels p
