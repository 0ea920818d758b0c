-- ===== src/Liveness/Digits.antt =====
-- The levels of a box against the bits of the tokens.

use rola.Prelude.{
  All, Bool, Bool-cases, List, [], ap, arith, false, get_or, inl, inr, length, ok, refl, suc, sum,
  sym, take, true, zero, ℕ, ◌&&◌, ◌*◌, ◌+◌, ◌<◌, ◌||◌, ◌↔◌, ◌∙◌, ◌∷◌, ◌≡◌, ◌≤◌,
}
use rola.Liveness.{LivenessLayout, row_base, words}
use rola.Liveness.Boxes.{is_run, check_runs}
use rola.Liveness.RowLanes.{row_lane}
use rola.Liveness.Runs.{run_lane, levels_lane, levels_lane, FitsTable}
use rola.Liveness.Numbers.{table_of, table_lane}

-- The runs of a box that was checked are inside the table.
pub runs_fit :
    (l : LivenessLayout) (limit base level : ℕ) (starts spans widths : List ℕ)
    → check_runs starts spans widths ≡ ok tt
    → ((j : ℕ) → row_base l (level + j) ≡ base + sum (take j widths))
    → base + sum widths ≤ limit
    → FitsTable l limit level starts spans
unfolding check_runs is_run
runs_fit l limit base level [] spans widths run at le = tt
runs_fit l limit base level (start ∷ starts) [] widths run at le = tt
runs_fit l limit base level (start ∷ starts) (span ∷ spans) [] run at le = cc
runs_fit l limit base level (start ∷ starts) (span ∷ spans) (w ∷ widths) run at le =
    elim (Bool-cases (is_run w start span)) [
      | inr bad ↦ cc (rw bad at run)
      | inl good ↦ (
        positive good,
        omega (arith, inside good, here, le),
        runs_fit l limit (base + w) (suc level) starts spans widths (rw good at run)
            (λ j.
              ap (row_base l) {x = suc level + j} {y = level + suc j} (omega arith)
              ∙ at (suc j)
              ∙ omega arith)
            (omega (arith, le)),
      )
    ]
  where
    positive : is_run w start span ≡ true → 0 < span
    positive good = ground arith

    inside : is_run w start span ≡ true → start + span ≤ w
    inside good = ground arith

    here : row_base l level ≡ base
    here = ap (row_base l) {x = level} {y = level + 0} (omega arith) ∙ at 0 ∙ omega arith

get_or-in_range : (xs : List Bool) (i : ℕ) → get_or xs i false ≡ true → i < length xs
get_or-in_range [] i h = cc
get_or-in_range (x ∷ xs) zero h = omega arith
get_or-in_range (x ∷ xs) (suc i) h = omega (arith, get_or-in_range xs i h)

pub token_below :
    (bits : List (List Bool)) (n row t : ℕ)
    → All (λ r. length r ≡ n) bits
    → get_or (get_or bits row []) t false ≡ true
    → t < n
token_below [] n row t p h = cc
token_below (r ∷ bits) n zero t p h = omega (arith, get_or-in_range r t h, p.0)
token_below (r ∷ bits) n (suc row) t p h = token_below bits n row t p.1 h

-- Some digit of a run is live for a token, and so in every level of a box.
abbrev pub LiveRun : List (List Bool) → ℕ → ℕ → ℕ → Type 0
LiveRun bits row span token =
    (d : ℕ) × (d < span) × (get_or (get_or bits (row + d) []) token false ≡ true)

abbrev pub LiveIn : LivenessLayout → List (List Bool) → ℕ → List ℕ → List ℕ → ℕ → Type 0
LiveIn l bits level [] spans token = Unit
LiveIn l bits level (start ∷ starts) [] token = Unit
LiveIn l bits level (start ∷ starts) (span ∷ spans) token =
    LiveRun bits (row_base l level + start) span token
    × LiveIn l bits (suc level) starts spans token

module _ (l : LivenessLayout) where
  run_lane_iff :
      (bits : List (List Bool)) (row span k s : ℕ)
      → row + span ≤ length bits
      → k < words l
      → s < 32
      → (run_lane (table_of l bits) row span k s ≡ true) ↔ LiveRun bits row span (k * 32 + s)
  unfolding run_lane
  run_lane_iff bits row zero k s le lt lt' = (λ h. cc, λ h. absurd (omega (arith, h.1)))
  run_lane_iff bits row (suc span) k s le lt lt' = (
    λ h. elim (Bool-cases (row_lane (get_or (table_of l bits) row []) k s)) [
      | inl here ↦ (
        0,
        omega arith,
        ap (λ r. get_or (get_or bits r []) (k * 32 + s) false) {x = row + 0} {y = row} (omega arith)
            ∙ sym head
            ∙ here,
      )
      | inr not_here ↦
          let (d, below, live) =
            (run_lane_iff bits (suc row) span k s (omega (arith, le)) lt lt').0
              (later _ _ not_here h) in
          (
            suc d,
            omega (arith, below),
            ap (λ r. get_or (get_or bits r []) (k * 32 + s) false) {x = row + suc d}
                  {y = suc row + d} (omega arith)
                ∙ live,
          )
    ],
    λ h. back (run_lane_iff bits (suc row) span k s (omega (arith, le)) lt lt').1 h.0 h.1 h.2,
  )
    where
      head :
          row_lane (get_or (table_of l bits) row []) k s
          ≡ get_or (get_or bits row []) (k * 32 + s) false
      head = table_lane l bits row k s (omega (arith, le)) lt lt'

      later : (a b : Bool) → a ≡ false → (a || b) ≡ true → b ≡ true
      later a b e h = ground arith

      first : (a b : Bool) → a ≡ true → (a || b) ≡ true
      first a b e = ground arith

      second : (a b : Bool) → b ≡ true → (a || b) ≡ true
      second a b e = ground arith

      back :
          (LiveRun bits (suc row) span (k * 32 + s)
            → run_lane (table_of l bits) (suc row) span k s ≡ true)
          → (d : ℕ) → d < suc span
          → get_or (get_or bits (row + d) []) (k * 32 + s) false ≡ true
          → (row_lane (get_or (table_of l bits) row []) k s
              || run_lane (table_of l bits) (suc row) span k s)
            ≡ true
      back rest zero below live = first _ _ (
          head
          ∙ ap (λ r. get_or (get_or bits r []) (k * 32 + s) false) {x = row} {y = row + 0}
              (omega arith)
          ∙ live)
      back rest (suc d) below live = second _ _ (
          rest (
            d,
            omega (arith, below),
            ap (λ r. get_or (get_or bits r []) (k * 32 + s) false) {x = suc row + d}
                  {y = row + suc d} (omega arith)
                ∙ live,
          ))

  pub levels_lane_iff :
      (bits : List (List Bool)) (level : ℕ) (starts spans : List ℕ) (k s : ℕ)
      → FitsTable l (length bits) level starts spans
      → k < words l
      → s < 32
      → (levels_lane l (table_of l bits) level starts spans k s ≡ true)
        ↔ LiveIn l bits level starts spans (k * 32 + s)
  unfolding levels_lane
  levels_lane_iff bits level [] spans k s fits lt lt' = (λ h. tt, λ h. refl)
  levels_lane_iff bits level (start ∷ starts) [] k s fits lt lt' = (λ h. tt, λ h. refl)
  levels_lane_iff bits level (start ∷ starts) (span ∷ spans) k s fits lt lt' = (
    λ h. (
      here.0 (left _ _ h),
      (levels_lane_iff bits (suc level) starts spans k s fits.2 lt lt').0 (right _ _ h),
    ),
    λ h.
        joined _ _ (here.1 h.0)
          ((levels_lane_iff bits (suc level) starts spans k s fits.2 lt lt').1 h.1),
  )
    where
      here :
          (run_lane (table_of l bits) (row_base l level + start) span k s ≡ true)
          ↔ LiveRun bits (row_base l level + start) span (k * 32 + s)
      here = run_lane_iff bits (row_base l level + start) span k s fits.1 lt lt'

      left : (a b : Bool) → (a && b) ≡ true → a ≡ true
      left a b h = ground arith

      right : (a b : Bool) → (a && b) ≡ true → b ≡ true
      right a b h = ground arith

      joined : (a b : Bool) → a ≡ true → b ≡ true → (a && b) ≡ true
      joined a b h h' = ground arith
