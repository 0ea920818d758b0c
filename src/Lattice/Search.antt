-- ===== src/Lattice/Search.antt =====
-- `derive_lattice` of rola/ops/lattice.py: the search for the box of a topology.
use rola.Prelude.{
  Bool, List, Option, Result, [], false, if◌then◌else◌, leb, ltb, none, ok, prod, raised, some, suc,
  value_error, zero, ℕ, ◌&&◌, ◌+◌, ◌==◌, ◌>>=◌, ◌^◌, ◌||◌, ◌∷◌,
}
use rola.Lattice.{Level, owner_leaves}
use rola.Lattice.Box.{box_shape}
use rola.Lattice.Atoms.{atom_rectangle}

-- `LATTICE_CAP_BC`, `_MAX_SPAN` and `_MAX_SPAN_K`
abbrev pub lattice_cap_bc : ℕ
lattice_cap_bc = 128

abbrev pub max_span : ℕ
max_span = 32

abbrev pub max_span_k : ℕ
max_span_k = 4

-- `s` of a box
unfoldable pub spans_of : List Level → List ℕ
spans_of [] = []
spans_of (l ∷ box) = l.span ∷ spans_of box

-- `any(x > _MAX_SPAN for x in s)`
unfoldable pub any_wide : List ℕ → Bool
any_wide [] = false
any_wide (s ∷ spans) = ltb max_span s || any_wide spans

-- What `_admissible` makes of a box that `box_shape` returned.
unfoldable pub within_cap : List Level → Option (List ℕ)
unfolding spans_of any_wide owner_leaves
within_cap box =
    if ltb lattice_cap_bc (owner_leaves box) || any_wide (spans_of box)
    then none
    else some (spans_of box)

-- `except ValueError: return None`; every other exception passes.
unfoldable pub admit_box : Result (List Level) → Result (Option (List ℕ))
unfolding within_cap
admit_box (ok box) = ok (within_cap box)
admit_box (raised value_error) = ok none
admit_box (raised e) = raised e

-- `_admissible`
unfoldable pub admissible : (ℕ → ℕ) → ℕ → ℕ → List ℕ → Result (Option (List ℕ))
unfolding box_shape admit_box
admissible log2 k m widths = admit_box (box_shape log2 widths k m)

-- The rank of a box; the code negates `atom_levels`, so that the tuples compare.
pub record Rank : Type 0 where
  pub leaves : ℕ
  pub atom_levels : ℕ
  pub span : ℕ

-- `rank > best[:3]`
unfoldable pub above : Rank → Rank → Bool
above a b =
    ltb b.leaves a.leaves
    || (a.leaves == b.leaves
        && (ltb a.atom_levels b.atom_levels
            || (a.atom_levels == b.atom_levels && ltb b.span a.span)))

unfoldable pub rank_of : List ℕ → ℕ → Rank
unfolding atom_rectangle
rank_of spans k =
    let (whole, partial) = atom_rectangle spans in
    record { leaves = prod spans; atom_levels = whole + (if ltb 1 partial then 1 else 0); span = k }

-- `best`: its rank, and the box.
pub record Best : Type 0 where
  pub rank : Rank
  pub k : ℕ
  pub m : ℕ

abbrev pub floor_box : Best
floor_box = record { rank = record { leaves = 0; atom_levels = 0; span = 0 }; k = 1; m = 1 }

-- The body of the inner loop, after `_admissible`.
unfoldable pub consider : ℕ → ℕ → Option (List ℕ) → Best → Best
unfolding above rank_of
consider k m none best = best
consider k m (some spans) best =
    if above (rank_of spans k) best.rank
    then record { rank = rank_of spans k; k = k; m = m }
    else best

-- The inner loop, over `j`; `rounds` are left.
unfoldable pub scan_capacities : (ℕ → ℕ) → List ℕ → ℕ → ℕ → ℕ → Best → Result Best
unfolding admissible consider
scan_capacities log2 widths k zero j best = ok best
scan_capacities log2 widths k (suc rounds) j best =
    let further = λ (spans : Option (List ℕ)).
      scan_capacities log2 widths k rounds (suc j) (consider k (2 ^ j) spans best) in
    if leb (2 ^ j) (prod widths) then admissible log2 k (2 ^ j) widths >>= further else ok best

-- The outer loop, over `kappa`; the product of the widths bounds the rounds of the inner one.
unfoldable pub scan_spans : (ℕ → ℕ) → List ℕ → ℕ → ℕ → Best → Result Best
unfolding scan_capacities
scan_spans log2 widths zero kappa best = ok best
scan_spans log2 widths (suc rounds) kappa best =
    let further = scan_spans log2 widths rounds (suc kappa) in
    if leb (2 ^ kappa) max_span_k
    then scan_capacities log2 widths (2 ^ kappa) (prod widths + 1) 0 best >>= further
    else ok best

-- `derive_lattice`; four rounds are enough for the spans 1, 2 and 4.
unfoldable pub derive_lattice : (ℕ → ℕ) → List ℕ → Result (ℕ × ℕ)
unfolding scan_spans
derive_lattice log2 widths = do
  best ← scan_spans log2 widths max_span_k 0 floor_box
  ok (best.k, best.m)
