-- ===== src/Lattice/Best.antt =====
-- `derive_lattice` takes the best box.
use rola.Prelude.{
  All, List, [], ap, arith, inl, inr, ok, prod, refl, sym, ℕ, ◌<◌, ◌∙◌, ◌∷◌, ◌≡◌, ◌⊎◌,
}
use mathlib.Core.Path.{subst}
use rola.Lattice.Order.{Divides}
use rola.Lattice.Fitted.{box_shape-IsFitted}
use rola.Lattice.{Level}
use rola.Lattice.Search.{Best, above, spans_of, admissible, rank_of, floor_box, derive_lattice}
use rola.Lattice.Ranks.{Atop, IsBetter, Atop-IsBetter}
use rola.Lattice.Admitted.{IsCandidate, fitting-admissible}
use rola.Lattice.Scan.{lt-two_pow, IsChosen, IsSearch, scan_spans-IsSearch}

search-candidates :
    (log2 : ℕ → ℕ) (w : ℕ) (ws : List ℕ) (after : Best) (k m : ℕ) (box : List Level)
    → IsSearch log2 w ws 0 4 floor_box after
    → IsCandidate log2 (w ∷ ws) k m box
    → Atop after.rank (rank_of (spans_of box) k)
search-candidates log2 w ws after k m box s c =
    subst (λ i. Atop after.rank (rank_of (spans_of box) i)) (sym c.k_is)
      (s.beats c.kappa c.j (spans_of box) (omega arith) (omega (arith, lt-two_pow c.kappa, c.k_le))
        c.k_le c.m_le
        ((λ i. admissible log2 ((sym c.k_is) i) ((sym c.m_is) i) (w ∷ ws))
          ∙ fitting-admissible log2 (w ∷ ws) k m box c.fits c.cap c.narrow))

prod-spans-pos : (box : List Level) → All Divides box → 0 < prod (spans_of box)
unfolding spans_of
prod-spans-pos [] d = omega arith
prod-spans-pos (l ∷ box) d = grind (arith, d.0.span_pos, prod-spans-pos box d.1)

-- A box that may be chosen ranks above the floor.
candidate-not_floor :
    (log2 : ℕ → ℕ) (widths : List ℕ) (k m : ℕ) (box : List Level)
    → All (λ n. 0 < n) widths
    → IsCandidate log2 widths k m box
    → ¬ Atop floor_box.rank (rank_of (spans_of box) k)
unfolding above rank_of
candidate-not_floor log2 widths k m box pos c h =
    ground (arith, prod-spans-pos box (box_shape-IsFitted log2 widths k m box pos c.fits).0)

-- Whatever the logarithm gives, over positive widths, one at least, `derive_lattice` returns. If
-- any box may be chosen, it returns one that may, and no other that may ranks above it: none has
-- more leaves to an owner, none of as many has an atom over fewer levels, and none that equals it
-- in both has a larger span `k`. If none may, it returns `(1, 1)`.
pub derive_lattice-best :
    (log2 : ℕ → ℕ) (w : ℕ) (ws : List ℕ)
    → All (λ n. 0 < n) (w ∷ ws)
    → (k : ℕ) × (m : ℕ) × (derive_lattice log2 (w ∷ ws) ≡ ok (k, m))
      × (((box : List Level) × IsCandidate log2 (w ∷ ws) k m box
            × ((k' m' : ℕ) (box' : List Level)
                → IsCandidate log2 (w ∷ ws) k' m' box'
                → ¬ IsBetter (rank_of (spans_of box') k') (rank_of (spans_of box) k)))
          ⊎ ((k ≡ 1)
              × (m ≡ 1)
              × ((k' m' : ℕ) (box' : List Level) → ¬ IsCandidate log2 (w ∷ ws) k' m' box')))
unfolding derive_lattice IsChosen
derive_lattice-best log2 w ws pos =
    let (best, e, s) = scan_spans-IsSearch log2 w ws 4 0 floor_box in
    (
      best.k,
      best.m,
      rw e,
      elim (s.chosen (inl refl)) [
        | inl none_chosen ↦ inr (
          ap (λ b. b.k) none_chosen,
          ap (λ b. b.m) none_chosen,
          λ k' m' box' c. candidate-not_floor log2 (w ∷ ws) k' m' box' pos c (
              subst (λ b. Atop b.rank (rank_of (spans_of box') k')) none_chosen
                (search-candidates log2 w ws best k' m' box' s c)),
        )
        | inr (box, c, r) ↦ inl (
          box,
          c,
          λ k' m' box' c'.
              Atop-IsBetter (rank_of (spans_of box) best.k) (rank_of (spans_of box') k') (
                subst (λ q. Atop q (rank_of (spans_of box') k')) r
                  (search-candidates log2 w ws best k' m' box' s c')),
        )
      ],
    )
