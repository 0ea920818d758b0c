-- ===== src/Keying.antt =====
-- rola/ops/paging.py `AtomKeying`: the one derivation of the paged address arithmetic.
pub mod Bits
pub mod Address
mod Tests
use Prim.Native.Nat.{bit_and, bit_or}
use rola.Prelude.{
  Result, if◌then◌else◌, not, ok, raised, value_error, ℕ, ◌%◌, ◌*◌, ◌+◌, ◌-◌, ◌/◌, ◌==◌, ◌^◌,
}

-- `MMA_K_QUANTUM`, `_LOG2_ATOM_LEAVES` and `_ATOM_ROW_MASK`
abbrev pub mma_k_quantum : ℕ
mma_k_quantum = 16

abbrev pub log2_atom_leaves : ℕ
log2_atom_leaves = 4

abbrev pub atom_row_mask : ℕ
atom_row_mask = mma_k_quantum - 1

pub record AtomKeying : Type 0 where
  pub n : ℕ
  pub cols : ℕ
  pub bh : ℕ

-- `AtomKeying.__post_init__`
unfoldable pub atom_keying : ℕ → ℕ → ℕ → Result AtomKeying
atom_keying n cols bh =
    if not (n % mma_k_quantum == 0)
    then raised value_error
    else ok (record { n = n; cols = cols; bh = bh })

unfoldable pub atoms_per_bh : AtomKeying → ℕ
atoms_per_bh k = k.n / mma_k_quantum

unfoldable pub logical_atoms : AtomKeying → ℕ
unfolding atoms_per_bh
logical_atoms k = k.bh * atoms_per_bh k

pub atom_of : AtomKeying → ℕ → ℕ → ℕ
unfolding atoms_per_bh
atom_of k bh leaf = bh * atoms_per_bh k + leaf / 2 ^ log2_atom_leaves

-- `leaf & _ATOM_ROW_MASK`
pub row_of : ℕ → ℕ
row_of leaf = bit_and leaf atom_row_mask

-- `((slot << _LOG2_ATOM_LEAVES) | row) * cols + v`
pub address : AtomKeying → ℕ → ℕ → ℕ → ℕ
unfolding row_of
address k slot leaf v = bit_or (slot * 2 ^ log2_atom_leaves) (row_of leaf) * k.cols + v

-- `atoms_per_owner` (`QPO`)
unfoldable pub atoms_per_owner : ℕ → Result ℕ
atoms_per_owner box =
    if not (box % mma_k_quantum == 0) then raised value_error else ok (box / mma_k_quantum)
