-- ===== src/Routing/Columns.antt =====
-- The columns of the packed slots, and their runs.
use rola.Prelude.{
  ==_iff, All, List, [], ap, arith, get_or, length, length-append, lt→ltb, map, ok, raised, refl,
  suc, sym, value_error, zero, ℕ, ◌++◌, ◌+◌, ◌-◌, ◌<◌, ◌∙◌, ◌∷◌, ◌≡◌, ◌≤◌,
}
use mathlib.Core.List.{append_assoc, append-nil}
use rola.Tensor.{arange}
use rola.Tensor.Laws.{length-arange}
use rola.Routing.{LevelRouting}
use rola.Routing.Packed.{
  packed_slot_count, untied_levels, packed_slot_offsets, packed_slot_widths, packed_slot_level,
  offsets_from, packed_slot_slice, merge_span, runs_from, in_order, packed_column_runs,
}
use rola.Routing.Runs.{
  columns, back_columns, IsSpan, back_columns-merge_span, columns-in_order, Separated,
  BackSeparated, merge_span-BackSeparated, in_order-Separated, Apart-nil,
}

-- The slots' offsets and widths.
pub length-packed_slot_widths :
    (levels : List LevelRouting) → length (packed_slot_widths levels) ≡ packed_slot_count levels
unfolding packed_slot_widths packed_slot_level packed_slot_count
length-packed_slot_widths levels =
    length-map _ (arange 0 (length levels) ++ untied_levels levels)
    ∙ length-append (arange 0 (length levels)) (untied_levels levels)
    ∙ ap (λ n. n + length (untied_levels levels)) (length-arange 0 (length levels))
  where
    length-map : (f : ℕ → ℕ) (xs : List ℕ) → length (map f xs) ≡ length xs
    length-map f [] = refl
    length-map f (x ∷ xs) = ap suc (length-map f xs)

pub offsets_from-step :
    (o : ℕ) (ws : List ℕ) (i : ℕ)
    → i < length ws
    → get_or (offsets_from o ws) (suc i) 0 ≡ get_or (offsets_from o ws) i 0 + get_or ws i 0
unfolding offsets_from
offsets_from-step o [] i lt = elim lt [ ]
offsets_from-step o (w ∷ []) zero lt = refl
offsets_from-step o (w ∷ v ∷ ws) zero lt = refl
offsets_from-step o (w ∷ ws) (suc i) lt = offsets_from-step (o + w) ws i (omega arith)

-- The columns of a slot, and of slots in their order: as many as the width of its level, from its
-- offset.
unfoldable pub slot_columns : List LevelRouting → List ℕ → List ℕ
slot_columns levels [] = []
slot_columns levels (slot ∷ slots) =
    arange (get_or (packed_slot_offsets levels) slot 0) (get_or (packed_slot_widths levels) slot 0)
    ++ slot_columns levels slots

module _ (levels : List LevelRouting) where
  slice_known :
      (slot : ℕ)
      → slot < packed_slot_count levels
      → (packed_slot_slice levels slot
          ≡ ok (
            get_or (packed_slot_offsets levels) slot 0,
            get_or (packed_slot_offsets levels) (suc slot) 0,
          ))
        × (get_or (packed_slot_offsets levels) (suc slot) 0
            ≡ get_or (packed_slot_offsets levels) slot 0
              + get_or (packed_slot_widths levels) slot 0)
  unfolding packed_slot_slice packed_slot_offsets
  slice_known slot lt = (
    rw (lt→ltb slot (packed_slot_count levels) lt),
    offsets_from-step 0 (packed_slot_widths levels) slot
        (omega (arith, lt, length-packed_slot_widths levels)),
  )

  runs_from-columns :
      (slots : List ℕ) (runs : List (ℕ × ℕ))
      → All (λ s. s < packed_slot_count levels) slots
      → All IsSpan runs
      → BackSeparated runs
      → (after : List (ℕ × ℕ)) × (runs_from levels slots runs ≡ ok after)
        × (back_columns after ≡ back_columns runs ++ slot_columns levels slots)
        × BackSeparated after
  unfolding runs_from slot_columns
  runs_from-columns [] runs p spans apart =
      (runs, refl, sym (append-nil (back_columns runs)), apart)
  runs_from-columns (slot ∷ slots) runs p spans apart =
      let (e, step) = slice_known slot p.0 in
      let (merged, spans') =
        back_columns-merge_span (start, stop) runs (omega (arith, step)) spans in
      let (after, e', cols, apart') =
        runs_from-columns slots (merge_span (start, stop) runs) p.1 spans'
          (merge_span-BackSeparated (start, stop) runs apart) in
      (
        after,
        rw e e',
        cols
            ∙ ap (λ xs. xs ++ slot_columns levels slots)
                (merged
                  ∙ ap (λ n. back_columns runs ++ arange start n) {x = stop - start}
                      {y = get_or (packed_slot_widths levels) slot 0} (omega (arith, step)))
            ∙ append_assoc (back_columns runs)
                (arange start (get_or (packed_slot_widths levels) slot 0))
                (slot_columns levels slots),
        apart',
      )
    where
      start : ℕ
      start = get_or (packed_slot_offsets levels) slot 0

      stop : ℕ
      stop = get_or (packed_slot_offsets levels) (suc slot) 0

  runs_from-refused :
      (before : List ℕ) (slot : ℕ) (slots : List ℕ) (runs : List (ℕ × ℕ))
      → All (λ s. s < packed_slot_count levels) before
      → packed_slot_count levels ≤ slot
      → runs_from levels (before ++ slot ∷ slots) runs ≡ raised value_error
  unfolding runs_from packed_slot_slice
  runs_from-refused [] slot slots runs p le = ground arith
  runs_from-refused (s ∷ before) slot slots runs p le =
      rw (lt→ltb s (packed_slot_count levels) p.0) (runs_from-refused before slot slots _ p.1 le)

-- The runs of slots that the layout has are the columns of the slots, in the order of the slots,
-- and no run ends where the next begins.
pub packed_column_runs_lem :
    (levels : List LevelRouting) (slots : List ℕ)
    → All (λ s. s < packed_slot_count levels) slots
    → (runs : List (ℕ × ℕ)) × (packed_column_runs levels slots ≡ ok runs)
      × (columns runs ≡ slot_columns levels slots)
      × Separated runs
unfolding packed_column_runs back_columns columns
packed_column_runs_lem levels slots p =
    let (after, e, cols, apart) = runs_from-columns levels slots [] p tt tt in
    (
      in_order after [],
      rw e,
      columns-in_order after [] ∙ append-nil (back_columns after) ∙ cols,
      in_order-Separated after [] apart tt (Apart-nil after),
    )

-- Slots of which one is not in the layout are refused by ValueError.
pub packed_column_runs_refused :
    (levels : List LevelRouting) (before : List ℕ) (slot : ℕ) (after : List ℕ)
    → All (λ s. s < packed_slot_count levels) before
    → packed_slot_count levels ≤ slot
    → packed_column_runs levels (before ++ slot ∷ after) ≡ raised value_error
unfolding packed_column_runs
packed_column_runs_refused levels before slot after p le =
    rw (runs_from-refused levels before slot after [] p le)

-- Consecutive slots are one run.
runs_from-consecutive :
    (levels : List LevelRouting) (n b start : ℕ)
    → b + n ≤ packed_slot_count levels
    → runs_from levels (arange b n) ((start, get_or (packed_slot_offsets levels) b 0) ∷ [])
      ≡ ok ((start, get_or (packed_slot_offsets levels) (b + n) 0) ∷ [])
unfolding runs_from arange merge_span
runs_from-consecutive levels zero b start le =
    ap (λ j. ok ((start, get_or (packed_slot_offsets levels) j 0) ∷ [])) {x = b} {y = b + 0}
      (omega arith)
runs_from-consecutive levels (suc n) b start le =
    rw
      (
        (slice_known levels b (omega arith)).0,
        (==_iff (get_or (packed_slot_offsets levels) b 0) _).1 refl,
      )
      (runs_from-consecutive levels n (suc b) start (omega arith)
        ∙ ap (λ j. ok ((start, get_or (packed_slot_offsets levels) j 0) ∷ [])) {x = suc b + n}
            {y = b + suc n} (omega arith))

pub consecutive_run :
    (levels : List LevelRouting) (a n : ℕ)
    → a + suc n ≤ packed_slot_count levels
    → packed_column_runs levels (arange a (suc n))
      ≡ ok (
          (
            get_or (packed_slot_offsets levels) a 0,
            get_or (packed_slot_offsets levels) (a + suc n) 0,
          )
          ∷ [])
unfolding packed_column_runs runs_from arange merge_span in_order
consecutive_run levels a n le =
    rw
      (
        (slice_known levels a (omega arith)).0,
        runs_from-consecutive levels n (suc a) (get_or (packed_slot_offsets levels) a 0)
            (omega arith),
      )
      (ap
        (λ j.
          ok (
            (get_or (packed_slot_offsets levels) a 0, get_or (packed_slot_offsets levels) j 0)
            ∷ []))
        {x = suc a + n} {y = a + suc n} (omega arith))
