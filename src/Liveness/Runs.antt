-- ===== src/Liveness/Runs.antt =====
-- The runs and the clause of `box_activity`, lane by lane.
use rola.Prelude.{
  All, Bool, List, [], ap, arith, false, get_or, length, map, none, refl, some, suc, true, zero, ℕ,
  ◌&&◌, ◌+◌, ◌-◌, ◌<◌, ◌||◌, ◌∙◌, ◌∷◌, ◌≡◌, ◌≤◌,
}
use rola.Liveness.{LivenessLayout, row_base}
use rola.Liveness.Words.{ℤ}
use rola.Liveness.Boxes.{and_rows, or_rows, or_from, or_run}
use rola.Liveness.Folds.{clause_from}
use rola.Liveness.RowLanes.{stored, IsRow, row_lane, or_rows-lanes, and_rows-lanes}

-- Some row of the run has the lane.
unfoldable pub run_lane : List (List ℕ) → ℕ → ℕ → ℕ → ℕ → Bool
run_lane table row zero k s = false
run_lane table row (suc span) k s =
    row_lane (get_or table row []) k s || run_lane table (suc row) span k s

abbrev pub IsTable : ℕ → List (List ℕ) → Type 0
IsTable count table = All (IsRow count) table

stored-IsRow :
    (count : ℕ) (table : List (List ℕ)) (row : ℕ)
    → IsTable count table
    → row < length table
    → (get_or (map stored table) row [] ≡ stored (get_or table row []))
      × IsRow count (get_or table row [])
stored-IsRow count [] row p lt = elim lt [ ]
stored-IsRow count (r ∷ table) zero p lt = (refl, p.0)
stored-IsRow count (r ∷ table) (suc row) p lt = stored-IsRow count table row p.1 (omega arith)

-- A row of stored words with known lanes.
abbrev pub HasLanes : ℕ → List ℤ → (ℕ → ℕ → Bool) → Type 0
HasLanes count row lanes =
    (ws : List ℕ) × (row ≡ stored ws)
    × IsRow count ws
    × ((k s : ℕ) → k < count → row_lane ws k s ≡ lanes k s)

or_assoc : (a b c : Bool) → (a || b) || c ≡ a || (b || c)
or_assoc true b c = refl
or_assoc false b c = refl

or_from-lanes :
    (count : ℕ) (table : List (List ℕ)) (row span : ℕ) (run : List ℕ)
    → IsTable count table
    → row + span ≤ length table
    → IsRow count run
    → HasLanes count
        (or_from (map stored table) row span (stored run))
        (λ k s. row_lane run k s || run_lane table row span k s)
unfolding or_from run_lane
or_from-lanes count table row zero run t le p =
    (run, refl, p, λ k s lt. or_false (row_lane run k s))
  where
    or_false : (a : Bool) → a ≡ a || false
    or_false true = refl
    or_false false = refl
or_from-lanes count table row (suc span) run t le p =
    let (at_row, q) = stored-IsRow count table row t (omega (arith, le)) in
    let (both, e, r, lanes) = or_rows-lanes count run (get_or table row []) p q in
    let (ws, e', r', lanes') =
      or_from-lanes count table (suc row) span both t (omega (arith, le)) r in
    (
      ws,
      ap (or_from (map stored table) (suc row) span) (ap (or_rows (stored run)) at_row ∙ e) ∙ e',
      r',
      λ k s lt.
          lanes' k s lt
          ∙ ap (λ b. b || run_lane table (suc row) span k s) (lanes k s lt)
          ∙ or_assoc (row_lane run k s) (row_lane (get_or table row []) k s)
              (run_lane table (suc row) span k s),
    )

or_run-lanes :
    (count : ℕ) (table : List (List ℕ)) (base span : ℕ)
    → IsTable count table
    → 0 < span
    → base + span ≤ length table
    → HasLanes count (or_run (map stored table) base span) (run_lane table base span)
unfolding or_run run_lane
or_run-lanes count table base zero t lt le = absurd (omega arith)
or_run-lanes count table base (suc span) t lt le =
    let (at_row, q) = stored-IsRow count table base t (omega (arith, le)) in
    let (ws, e, r, lanes) =
      or_from-lanes count table (suc base) span (get_or table base []) t (omega (arith, le)) q in
    (ws, opened (get_or table base []) at_row ∙ e, r, lanes)
  where
    opened :
        (row : List ℕ)
        → get_or (map stored table) base [] ≡ stored row
        → or_from (map stored table) (base + 1) (suc span - 1) (get_or (map stored table) base [])
          ≡ or_from (map stored table) (suc base) span (stored row)
    opened row at_row i = or_from (map stored table) (next i) (less i) (at_row i)
      where
        next : base + 1 ≡ suc base
        next = omega arith

        less : suc span - 1 ≡ span
        less = omega arith

-- Every level from `level` on has the lane in its run.
unfoldable pub levels_lane : LivenessLayout → List (List ℕ) → ℕ → List ℕ → List ℕ → ℕ → ℕ → Bool
levels_lane l table level [] spans k s = true
levels_lane l table level (start ∷ starts) [] k s = true
levels_lane l table level (start ∷ starts) (span ∷ spans) k s =
    run_lane table (row_base l level + start) span k s
    && levels_lane l table (suc level) starts spans k s

-- Every run is inside the table, and is not empty.
abbrev pub FitsTable : LivenessLayout → ℕ → ℕ → List ℕ → List ℕ → Type 0
FitsTable l limit level [] spans = Unit
FitsTable l limit level (start ∷ starts) [] = Unit
FitsTable l limit level (start ∷ starts) (span ∷ spans) =
    (0 < span)
    × (row_base l level + start + span ≤ limit)
    × FitsTable l limit (suc level) starts spans

and_assoc : (a b c : Bool) → (a && b) && c ≡ a && (b && c)
and_assoc true b c = refl
and_assoc false b c = refl

-- The clause once it is a row.
clause-lanes :
    (l : LivenessLayout) (count : ℕ) (table : List (List ℕ)) (level : ℕ) (starts spans : List ℕ)
    (clause : List ℕ)
    → IsTable count table
    → FitsTable l (length table) level starts spans
    → IsRow count clause
    → (row : List ℤ) × (clause_from l (map stored table) level starts spans (some (stored clause))
        ≡ some row)
      × HasLanes count row
          (λ k s. row_lane clause k s && levels_lane l table level starts spans k s)
unfolding clause_from levels_lane
clause-lanes l count table level [] spans clause t fits p =
    (stored clause, refl, (clause, refl, p, λ k s lt. and_true (row_lane clause k s)))
  where
    and_true : (a : Bool) → a ≡ a && true
    and_true true = refl
    and_true false = refl
clause-lanes l count table level (start ∷ starts) [] clause t fits p =
    (stored clause, refl, (clause, refl, p, λ k s lt. and_true (row_lane clause k s)))
  where
    and_true : (a : Bool) → a ≡ a && true
    and_true true = refl
    and_true false = refl
clause-lanes l count table level (start ∷ starts) (span ∷ spans) clause t fits p =
    let (run, e, q, lanes) =
      or_run-lanes count table (row_base l level + start) span t fits.0 fits.1 in
    let (both, e', r, lanes') = and_rows-lanes count clause run p q in
    let (row, e2, (ws, e3, r3, lanes3)) =
      clause-lanes l count table (suc level) starts spans both t fits.2 r in
    (
      row,
      ap (λ m. clause_from l (map stored table) (suc level) starts spans (some m))
            (ap (and_rows (stored clause)) e ∙ e')
          ∙ e2,
      (
        ws,
        e3,
        r3,
        λ k s lt.
            lanes3 k s lt
            ∙ ap (λ b. b && levels_lane l table (suc level) starts spans k s)
                (lanes' k s lt ∙ ap (λ b. row_lane clause k s && b) (lanes k s lt))
            ∙ and_assoc (row_lane clause k s) (run_lane table (row_base l level + start) span k s)
                (levels_lane l table (suc level) starts spans k s),
      ),
    )

-- The clause of a box of one level or more.
pub clause_from-lanes :
    (l : LivenessLayout) (count : ℕ) (table : List (List ℕ)) (start span : ℕ)
    (starts spans : List ℕ)
    → IsTable count table
    → FitsTable l (length table) 0 (start ∷ starts) (span ∷ spans)
    → (row : List ℤ) × (clause_from l (map stored table) 0 (start ∷ starts) (span ∷ spans) none
        ≡ some row)
      × HasLanes count row (levels_lane l table 0 (start ∷ starts) (span ∷ spans))
unfolding clause_from levels_lane
clause_from-lanes l count table start span starts spans t fits =
    let (run, e, q, lanes) = or_run-lanes count table (row_base l 0 + start) span t fits.0 fits.1 in
    let (row, e2, (ws, e3, r3, lanes3)) =
      clause-lanes l count table 1 starts spans run t fits.2 q in
    (
      row,
      ap (λ m. clause_from l (map stored table) 1 starts spans (some m)) e ∙ e2,
      (
        ws,
        e3,
        r3,
        λ k s lt.
            lanes3 k s lt ∙ ap (λ b. b && levels_lane l table 1 starts spans k s) (lanes k s lt),
      ),
    )
