-- ===== src/Tensor.antt =====
-- The tensor operations that more than one component calls, on lists.
pub mod Laws
use rola.Prelude.{Bool, List, Option, [], if◌then◌else◌, set, some, suc, zero, ℕ, ◌+◌, ◌∷◌}

-- `torch.arange(first, first + count)`
unfoldable pub arange : ℕ → ℕ → List ℕ
arange first zero = []
arange first (suc n) = first ∷ arange (suc first) n

-- The flat indices of `bits.nonzero()`, counted from `i`.
unfoldable pub nonzero_from : ℕ → List Bool → List ℕ
nonzero_from i [] = []
nonzero_from i (b ∷ bs) = let rest = nonzero_from (suc i) bs in if b then i ∷ rest else rest

-- `bitmap.sum()`
unfoldable pub popcount : List Bool → ℕ
popcount [] = 0
popcount (b ∷ bs) = (if b then 1 else 0) + popcount bs

-- `table.index_copy_(0, atom_ids, arange(first, ...))`
unfoldable pub index_copy : List ℕ → ℕ → List (Option ℕ) → List (Option ℕ)
index_copy [] first table = table
index_copy (a ∷ ids) first table = index_copy ids (suc first) (set table a (some first))

-- `store[first:first + count].zero_()`
unfoldable pub zero_run {ℓ} : {P : Type ℓ} → P → ℕ → ℕ → List P → List P
zero_run zeros first zero store = store
zero_run zeros first (suc n) store = zero_run zeros (suc first) n (set store first zeros)
