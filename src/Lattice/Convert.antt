-- ===== src/Lattice/Convert.antt =====
-- `to_lattice` and `to_canonical` of rola/ops/lattice.py, at one plane: a list of rows, one to a leaf.
use rola.Prelude.{
  List, Result, [], get_elem?, index_error, length, none, not, ok, prod, raised, refuse_if,
  runtime_error, set, some, ℕ, ◌==◌, ◌>>=◌, ◌>>◌, ◌∷◌,
}
use rola.Lattice.Box.{permutation}

module _ {ℓ} {P : Type ℓ} where
  -- `out.index_copy_(1, pi, flat)`
  unfoldable pub copy_rows : List ℕ → List P → List P → List P
  copy_rows [] rows out = out
  copy_rows (p ∷ pi) [] out = out
  copy_rows (p ∷ pi) (x ∷ rows) out = copy_rows pi rows (set out p x)

  -- `flat.index_select(1, pi)`
  unfoldable pub select_rows : List ℕ → List P → Result (List P)
  select_rows [] rows = ok []
  select_rows (p ∷ pi) rows = elim (get_elem? rows p) [
    | none ↦ raised index_error
    | some x ↦ select_rows pi rows >>= λ selected. ok (x ∷ selected)
  ]

  -- `to_lattice`; `empty` is what `torch.empty_like` finds.
  unfoldable pub to_lattice : (ℕ → ℕ) → List ℕ → ℕ → ℕ → List P → List P → Result (List P)
  unfolding copy_rows
  to_lattice log2 widths k m empty plane = do
    pi ← permutation log2 widths k m
    refuse_if (not (length plane == prod widths)) runtime_error
    ok (copy_rows pi plane empty)

  -- `to_canonical`
  unfoldable pub to_canonical : (ℕ → ℕ) → List ℕ → ℕ → ℕ → List P → Result (List P)
  unfolding select_rows
  to_canonical log2 widths k m plane = do
    pi ← permutation log2 widths k m
    refuse_if (not (length plane == prod widths)) runtime_error
    select_rows pi plane
