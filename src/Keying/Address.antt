-- ===== src/Keying/Address.antt =====
-- The address law: where a leaf's row stands in the plane, and that no two values share a place.
use Prim.Native.Nat.{bit_or}
use native.Mathlib.Nat.{mul-add-div, div-eq_of_lt, mul_comm, mul-le-mul_right}
use rola.Prelude.{ap, arith, ℕ, ◌%◌, ◌*◌, ◌+◌, ◌/◌, ◌<◌, ◌∙◌, ◌≡◌}
use rola.Keying.{AtomKeying, atom_of, row_of, address, atoms_per_bh, logical_atoms}
use rola.Keying.Bits.{bit_and_fifteen, bit_or_row}

row_of_lem : (leaf : ℕ) → row_of leaf ≡ leaf % 16
unfolding row_of
row_of_lem leaf = bit_and_fifteen leaf

address_lem :
    (k : AtomKeying) (slot leaf v : ℕ)
    → address k slot leaf v ≡ (slot * 16 + leaf % 16) * k.cols + v
unfolding address
address_lem k slot leaf v =
    ap (λ r. r * k.cols + v)
      (ap (λ r. bit_or (slot * 16) r) (row_of_lem leaf) ∙ bit_or_row slot (leaf % 16) (omega arith))

-- A mixed-radix number has one reading.
pub one_reading : (c x y v w : ℕ) → v < c → w < c → x * c + v ≡ y * c + w → (x ≡ y) × (v ≡ w)
one_reading c x y v w lt lt' same = (high, omega (arith, same, ap (λ k. k * c) high))
  where
    pos : 0 < c
    pos = omega arith

    digit : (z u : ℕ) → u < c → (z * c + u) / c ≡ z
    digit z u lt =
        omega (arith, ap (λ k. (k + u) / c) (mul_comm z c), mul-add-div pos z u, div-eq_of_lt lt)

    high : x ≡ y
    high = omega (arith, digit x v lt, digit y w lt', ap (λ k. k / c) same)

-- Two values of the plane, in columns below `cols`, have one address only if they are in one slot,
-- in one row of the page, and in one column.
pub address_distinct :
    (k : AtomKeying) (slot slot' leaf leaf' v v' : ℕ)
    → v < k.cols
    → v' < k.cols
    → address k slot leaf v ≡ address k slot' leaf' v'
    → (slot ≡ slot') × (leaf % 16 ≡ leaf' % 16) × (v ≡ v')
address_distinct k slot slot' leaf leaf' v v' lt lt' same =
    let (row, column) =
      one_reading k.cols (slot * 16 + leaf % 16) (slot' * 16 + leaf' % 16) v v' lt lt'
        (omega (arith, address_lem k slot leaf v, address_lem k slot' leaf' v', same)) in
    (omega arith, omega arith, column)

-- Where `N` is a whole number of atoms, a batch-head's leaf is in an atom of the arena, and two
-- leaves have one atom key only if they are of one batch-head and of one run of sixteen leaves.
pub atom_of_distinct :
    (k : AtomKeying) (bh bh' leaf leaf' : ℕ)
    → k.n % 16 ≡ 0
    → bh < k.bh
    → leaf < k.n
    → leaf' < k.n
    → (atom_of k bh leaf < logical_atoms k)
      × (atom_of k bh leaf ≡ atom_of k bh' leaf' → (bh ≡ bh') × (leaf / 16 ≡ leaf' / 16))
unfolding atom_of atoms_per_bh logical_atoms
atom_of_distinct k bh bh' leaf leaf' whole lt in_range in_range' = (
  omega (arith, mul-le-mul_right (k.n / 16) lt),
  λ same. one_reading (k.n / 16) bh bh' (leaf / 16) (leaf' / 16) (omega arith) (omega arith) same,
)
