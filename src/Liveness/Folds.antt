-- ===== src/Liveness/Folds.antt =====
-- rola/engine/facts/liveness.py: the class-2 folds, at one batch-head; and the atom as a box.
use Prim.Native.Nat.{bit_or}
use mathlib.Core.List.{reverse}
use rola.Prelude.{
  Bool, List, Option, Result, [], attribute_error, drop, false, get_or, if◌then◌else◌, index_error,
  length, map, min, none, not, ok, raised, refuse_if, replicate, set, some, suc, take, value_error,
  zero, zero_division_error, ℕ, ◌%◌, ◌&&◌, ◌++◌, ◌+◌, ◌-◌, ◌/◌, ◌==◌, ◌>>=◌, ◌>>◌, ◌||◌, ◌∷◌,
}
use rola.State.Carried.{atom_written}
use rola.Liveness.{LivenessLayout, row_base, layout_atoms, atom_leaves}
use rola.Liveness.Words.{ℤ, unpack_row}
use rola.Liveness.Boxes.{Box, check_box, box_pages, and_rows, or_run, is_nonzero, any}

-- `ATOM_READ`, of rola/engine/facts/planes.py
abbrev pub atom_read : ℕ
atom_read = 2

-- The loop of `box_activity` over the levels; the clause is None before the first.
unfoldable pub clause_from :
    LivenessLayout → List (List ℤ) → ℕ → List ℕ → List ℕ → Option (List ℤ) → Option (List ℤ)
unfolding row_base or_run and_rows
clause_from l table level [] spans clause = clause
clause_from l table level (start ∷ starts) [] clause = clause
clause_from l table level (start ∷ starts) (span ∷ spans) clause =
    let run = or_run table (row_base l level + start) span in
    clause_from l table (suc level) starts spans
      (elim clause [ none ↦ some run | some c ↦ some (and_rows c run) ])

-- `(clause != 0).any(dim=-1)`
unfoldable pub clause_live : Option (List ℤ) → Result Bool
unfolding is_nonzero any
clause_live none = raised attribute_error
clause_live (some clause) = ok (any (map is_nonzero clause))

-- `box_activity`, at one box
unfoldable pub box_live : LivenessLayout → List (List ℤ) → Box → Result Bool
unfolding check_box clause_from clause_live
box_live l table box = do
  check_box l box
  clause_live (clause_from l table 0 box.start box.span none)

unfoldable pub box_activity : LivenessLayout → List (List ℤ) → List Box → Result (List Bool)
unfolding box_live
box_activity l table [] = ok []
box_activity l table (box ∷ boxes) = do
  live ← box_live l table box
  rest ← box_activity l table boxes
  ok (live ∷ rest)

-- `bits[:, pages] |= hit * flag`
unfoldable pub mark_pages : List ℕ → ℕ → List ℕ → List ℕ
mark_pages [] byte bits = bits
mark_pages (page ∷ pages) byte bits =
    mark_pages pages byte (set bits page (bit_or (get_or bits page 0) byte))

-- The loop of `page_activity` over the boxes of one side.
unfoldable pub mark_boxes : LivenessLayout → ℕ → List Box → List Bool → List ℕ → Result (List ℕ)
unfolding box_pages mark_pages
mark_boxes l flag [] live bits = ok bits
mark_boxes l flag (box ∷ boxes) [] bits = raised index_error
mark_boxes l flag (box ∷ boxes) (b ∷ live) bits = do
  pages ← box_pages l box
  mark_boxes l flag boxes live (mark_pages pages (if b then flag else 0) bits)

-- `page_activity`
unfoldable pub page_activity :
    LivenessLayout → List Box → List Bool → List Box → List Bool → Result (List ℕ)
unfolding mark_boxes layout_atoms
page_activity l read_boxes read_bits write_boxes write_bits = do
  bits ← mark_boxes l atom_read read_boxes read_bits (replicate (layout_atoms l) 0)
  mark_boxes l atom_written write_boxes write_bits bits

-- The loop of `atom_spans` over the reversed widths: the spans, reversed, and what remains.
unfoldable pub spans_from : ℕ → List ℕ → Result (List ℕ × ℕ)
spans_from remaining [] = ok ([], remaining)
spans_from remaining (width ∷ widths) =
    let span = min width remaining in
    let rest = spans_from (remaining / span) widths in
    if span == 0
    then raised zero_division_error
    else if not (remaining % span == 0) || not (width % span == 0)
    then raised value_error
    else if remaining / span == 1
    then ok (span ∷ replicate (length widths) 1, 1)
    else rest >>= λ done. ok (span ∷ done.0, done.1)

-- `atom_spans`
unfoldable pub atom_spans : LivenessLayout → Result (List ℕ)
unfolding spans_from
atom_spans l = do
  done ← spans_from atom_leaves (reverse l.widths)
  refuse_if (not (done.1 == 1)) value_error
  ok (reverse done.0)

-- `range(first, stop, step)` of `count` numbers
unfoldable pub steps : ℕ → ℕ → ℕ → List ℕ
steps first step zero = []
steps first step (suc count) = first ∷ steps (first + step) step count

-- `[row + [digit] for row in grid for digit in digits]`
unfoldable pub extended : List (List ℕ) → List ℕ → List (List ℕ)
extended [] digits = []
extended (row ∷ grid) digits = map (λ digit. row ++ (digit ∷ [])) digits ++ extended grid digits

-- The loop of `atom_boxes` over the levels.
unfoldable pub grid_from : List ℕ → List ℕ → List (List ℕ) → List (List ℕ)
unfolding extended steps
grid_from [] spans grid = grid
grid_from (width ∷ widths) [] grid = grid
grid_from (width ∷ widths) (span ∷ spans) grid =
    grid_from widths spans (extended grid (steps 0 span ((width + span - 1) / span)))

-- `atom_boxes`
unfoldable pub atom_boxes : LivenessLayout → Result (List Box)
unfolding atom_spans grid_from
atom_boxes l = atom_spans l >>= λ spans.
    ok (map (λ row. record { start = row; span = spans }) (grid_from l.widths spans ([] ∷ [])))

-- Two token rows, bit by bit.
unfoldable pub both : List Bool → List Bool → List Bool
both [] right = []
both (a ∷ left) [] = []
both (a ∷ left) (b ∷ right) = (a && b) ∷ both left right

unfoldable pub either : List Bool → List Bool → List Bool
either [] right = []
either (a ∷ left) [] = []
either (a ∷ left) (b ∷ right) = (a || b) ∷ either left right

-- The `or` of a run of rows, over tokens that number `tokens`.
unfoldable pub any_row : ℕ → List (List Bool) → List Bool
unfolding either
any_row tokens [] = replicate tokens false
any_row tokens (row ∷ rows) = either row (any_row tokens rows)

-- `bits[base:base + width].reshape(width // span, span, L).any(dim=2)`, a group at a time
unfoldable pub runs_of : ℕ → ℕ → ℕ → List (List Bool) → List (List Bool)
unfolding any_row
runs_of tokens span zero rows = []
runs_of tokens span (suc groups) rows =
    any_row tokens (take span rows) ∷ runs_of tokens span groups (drop span rows)

-- `(clause[:, None] & run[None, :]).reshape(-1, L)`
unfoldable pub outer_and : List (List Bool) → List (List Bool) → List (List Bool)
unfolding both
outer_and [] run = []
outer_and (c ∷ clause) run = map (both c) run ++ outer_and clause run

-- The loop of `atom_activity` over the levels.
unfoldable pub atom_clause :
    LivenessLayout
    → List (List Bool)
    → ℕ
    → List ℕ
    → List ℕ
    → Option (List (List Bool))
    → Option (List (List Bool))
unfolding runs_of outer_and row_base
atom_clause l bits level [] spans clause = clause
atom_clause l bits level (width ∷ widths) [] clause = clause
atom_clause l bits level (width ∷ widths) (span ∷ spans) clause =
    let run = runs_of l.tokens span (width / span) (drop (row_base l level) bits) in
    atom_clause l bits (suc level) widths spans
      (elim clause [ none ↦ some run | some c ↦ some (outer_and c run) ])

-- `atom_activity`
unfoldable pub atom_activity : LivenessLayout → List (List ℤ) → Result (List Bool)
unfolding atom_spans atom_clause unpack_row any
atom_activity l table = atom_spans l >>= λ spans.
    elim (atom_clause l (map (unpack_row l) table) 0 l.widths spans none) [
      | none ↦ raised attribute_error
      | some clause ↦ ok (map any clause)
    ]

unfoldable pub or_bytes : List Bool → List Bool → List ℕ
or_bytes [] write = []
or_bytes (r ∷ read) [] = []
or_bytes (r ∷ read) (w ∷ write) =
    bit_or (if r then atom_read else 0) (if w then atom_written else 0) ∷ or_bytes read write

-- `page_bits`, over the words of the two sides
unfoldable pub page_bits : LivenessLayout → List (List ℤ) → List (List ℤ) → Result (List ℕ)
unfolding atom_activity or_bytes
page_bits l read_words write_words = do
  read ← atom_activity l read_words
  write ← atom_activity l write_words
  ok (or_bytes read write)
