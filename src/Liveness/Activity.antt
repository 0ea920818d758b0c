-- ===== src/Liveness/Activity.antt =====
-- `box_activity` against the bits of the tokens, at one box.
use mathlib.Core.Path.{subst}
use rola.Prelude.{
  Bool, List, Result, [], ap, arith, false, length, map, none, not, ok, refl, refuse_if, some, sym,
  true, value_error, ℕ, ◌%◌, ◌*◌, ◌+◌, ◌/◌, ◌<◌, ◌==◌, ◌>>◌, ◌||◌, ◌↔◌, ◌∙◌, ◌∷◌, ◌≡◌,
}
use rola.Liveness.{LivenessLayout, row_base, rows, words, token_words}
use rola.Liveness.Words.{ℤ, pack_row}
use rola.Liveness.Boxes.{Box, check_runs, check_box, is_nonzero, any}
use rola.Liveness.Folds.{clause_from, clause_live, box_live}
use rola.Liveness.RowLanes.{stored, any_lane}
use rola.Liveness.Runs.{FitsTable, clause_from-lanes}
use rola.Liveness.Numbers.{IsBitTable, table_of, packed_table, length-table_of, table_of-IsTable}
use rola.Liveness.Digits.{runs_fit, token_below, LiveIn, levels_lane_iff}

box_live_on :
    (l : LivenessLayout) (bits : List (List Bool)) (start span : ℕ) (starts spans : List ℕ)
    → check_runs (start ∷ starts) (span ∷ spans) l.widths ≡ ok tt
    → IsBitTable l bits
    → (clause_live (clause_from l (map (pack_row l) bits) 0 (start ∷ starts) (span ∷ spans) none)
        ≡ ok true)
      ↔ ((t : ℕ) × (t < l.tokens) × LiveIn l bits 0 (start ∷ starts) (span ∷ spans) t)
unfolding clause_live rows words token_words row_base
box_live_on l bits start span starts spans run t =
    let (row, e, (ws, e3, r, lanes)) =
      clause_from-lanes l (words l) (table_of l bits) start span starts spans
        (table_of-IsTable l bits t.1) fits_table in
    (
      λ h.
          let (k, s, lt, lt', live) =
            (any_lane (words l) ws r).0 (is_ok (sym (value row ws e e3) ∙ h)) in
          let inside =
            (levels_lane_iff l bits 0 (start ∷ starts) (span ∷ spans) k s fits lt lt').0
              (sym (lanes k s lt) ∙ live) in
          (
            k * 32 + s,
            token_below bits l.tokens (row_base l 0 + start + inside.0.0) (k * 32 + s) t.1
                inside.0.2,
            inside,
          ),
      λ h.
          value row ws e e3
          ∙ ap ok (
              (any_lane (words l) ws r).1 (
                h.0 / 32,
                h.0 % 32,
                omega (arith, h.1),
                omega arith,
                lanes (h.0 / 32) (h.0 % 32) (omega (arith, h.1))
                    ∙ (levels_lane_iff l bits 0 (start ∷ starts) (span ∷ spans) (h.0 / 32)
                          (h.0 % 32) fits (omega (arith, h.1)) (omega arith)).1
                        (subst (LiveIn l bits 0 (start ∷ starts) (span ∷ spans)) {x = h.0}
                          {y = h.0 / 32 * 32 + h.0 % 32} (omega arith) h.2),
              )),
    )
  where
    fits : FitsTable l (length bits) 0 (start ∷ starts) (span ∷ spans)
    fits =
        runs_fit l (length bits) 0 0 (start ∷ starts) (span ∷ spans) l.widths run
          (λ j. ap (row_base l) {x = 0 + j} {y = j} (omega arith) ∙ omega arith)
          (omega (arith, t.0))

    fits_table : FitsTable l (length (table_of l bits)) 0 (start ∷ starts) (span ∷ spans)
    fits_table =
        subst (λ n. FitsTable l n 0 (start ∷ starts) (span ∷ spans)) (sym (length-table_of l bits))
          fits

    is_ok : {a : Bool} → ok a ≡ ok true → a ≡ true
    is_ok h = cc

    value :
        (row : List ℤ) (ws : List ℕ)
        → clause_from l (map stored (table_of l bits)) 0 (start ∷ starts) (span ∷ spans) none
          ≡ some row
        → row ≡ stored ws
        → clause_live (clause_from l (map (pack_row l) bits) 0 (start ∷ starts) (span ∷ spans) none)
          ≡ ok (any (map is_nonzero (stored ws)))
    value row ws e e3 =
        ap (λ table. clause_live (clause_from l table 0 (start ∷ starts) (span ∷ spans) none))
          (packed_table l bits)
        ∙ ap clause_live (e ∙ ap some e3)

-- At a box of at least one level that the layout admits, `box_activity` over the packed table of a
-- side gives true exactly when some token of the layout has, in every level, a live digit in the
-- box's run of that level.
pub box_live_iff :
    (l : LivenessLayout) (bits : List (List Bool)) (box : Box)
    → check_box l box ≡ ok tt
    → IsBitTable l bits
    → 0 < l.depth
    → (box_live l (map (pack_row l) bits) box ≡ ok true)
      ↔ ((t : ℕ) × (t < l.tokens) × LiveIn l bits 0 box.start box.span t)
unfolding box_live check_box
box_live_iff l bits box e t deep =
    let (good, run) = accepted _ _ e in
    subst (λ r. (r ≡ ok true) ↔ ((t : ℕ) × (t < l.tokens) × LiveIn l bits 0 box.start box.span t))
      (sym (
        ap (λ r. r >> clause_live (clause_from l (map (pack_row l) bits) 0 box.start box.span none))
          e))
      (sized box.start box.span good run)
  where
    accepted :
        (bad : Bool) (runs : Result (Unit {0}))
        → (refuse_if bad value_error >> runs) ≡ ok tt
        → (bad ≡ false) × (runs ≡ ok tt)
    accepted true runs h = cc
    accepted false runs h = (refl, h)

    sized :
        (start span : List ℕ)
        → (not (length start == l.depth) || not (length span == l.depth)) ≡ false
        → check_runs start span l.widths ≡ ok tt
        → (clause_live (clause_from l (map (pack_row l) bits) 0 start span none) ≡ ok true)
          ↔ ((t : ℕ) × (t < l.tokens) × LiveIn l bits 0 start span t)
    sized [] span e run = absurd (ground arith)
    sized (a ∷ start) [] e run = absurd (ground arith)
    sized (a ∷ start) (b ∷ span) e run = box_live_on l bits a b start span run t
