-- ===== src/Lattice/Ranks.antt =====
-- The ranks of boxes, as `derive_lattice` compares them, and what the loop's body does to the best.
use rola.Prelude.{Bool-cases, List, Option, arith, false, inl, inr, none, some, true, ℕ, ◌<◌, ◌≡◌}
use rola.Lattice.Search.{Rank, Best, above, rank_of, consider}

-- No box of rank `s` beats one of rank `r`.
abbrev pub Atop : Rank → Rank → Type 0
Atop r s = above s r ≡ false

-- Rank `s` is better than `r`: more leaves; or as many, and fewer levels to an atom; or as many of
-- both, and a larger span.
pub data IsBetter (s r : Rank) : Type 0 where
  by_leaves : r.leaves < s.leaves → IsBetter s r
  by_levels : s.leaves ≡ r.leaves → s.atom_levels < r.atom_levels → IsBetter s r
  by_span : s.leaves ≡ r.leaves → s.atom_levels ≡ r.atom_levels → r.span < s.span → IsBetter s r

pub Atop-IsBetter : (r s : Rank) → Atop r s → ¬ IsBetter s r
unfolding above
Atop-IsBetter r s h (by_leaves m) = absurd (ground arith)
Atop-IsBetter r s h (by_levels e l) = absurd (ground arith)
Atop-IsBetter r s h (by_span e l m) = absurd (ground arith)

pub Atop-refl : (r : Rank) → Atop r r
unfolding above
Atop-refl r = ground arith

pub Atop-trans : (r s t : Rank) → Atop r s → Atop s t → Atop r t
unfolding above
Atop-trans r s t h h' = ground arith

Atop-above : (r s : Rank) → above r s ≡ true → Atop r s
unfolding above
Atop-above r s h = ground arith

pub consider-keeps :
    (k m : ℕ) (o : Option (List ℕ)) (best : Best) → Atop (consider k m o best).rank best.rank
unfolding consider
consider-keeps k m none best = Atop-refl best.rank
consider-keeps k m (some spans) best = elim (Bool-cases (above (rank_of spans k) best.rank)) [
  | inl more ↦ rw more (Atop-above (rank_of spans k) best.rank more)
  | inr less ↦ rw less (Atop-refl best.rank)
]

pub consider-beats :
    (k m : ℕ) (spans : List ℕ) (best : Best)
    → Atop (consider k m (some spans) best).rank (rank_of spans k)
unfolding consider
consider-beats k m spans best = elim (Bool-cases (above (rank_of spans k) best.rank)) [
  | inl more ↦ rw more (Atop-refl (rank_of spans k))
  | inr less ↦ rw less less
]
