-- ===== src/Arena/Table.antt =====
-- `_admit_pages` on the page table: what the gather-scatter over the absent atoms leaves.
use rola.Prelude.{
  Bool, Bool-cases, List, Option, [], ap, arith, false, get_elem?, get_or, if◌then◌else◌, inl, inr,
  length, none, not, refl, replicate, some, suc, true, zero, ℕ, ◌&&◌, ◌+◌, ◌<◌, ◌==◌, ◌||◌, ◌∙◌,
  ◌∷◌, ◌≡◌, ◌≢◌,
}
use rola.Tensor.{nonzero_from, popcount, index_copy}
use rola.Tensor.Laws.{hits, index_copy-shift, length-nonzero_from}
use rola.Arena.{is_absent, wanted}

-- The table, atom by atom: a wanted absent atom takes the next slot.
pub fill : List Bool → List (Option ℕ) → ℕ → List (Option ℕ)
unfolding is_absent
fill [] t n = t
fill (b ∷ bs) [] n = []
fill (b ∷ bs) (x ∷ t) n =
    (if b && is_absent x then some n else x) ∷ fill bs t (if b && is_absent x then suc n else n)

unfoldable pub demand : List Bool → List (Option ℕ) → ℕ
unfolding popcount wanted
demand bs t = popcount (wanted bs t)

pub length-demand :
    (bs : List Bool) (t : List (Option ℕ)) → length (nonzero_from 0 (wanted bs t)) ≡ demand bs t
unfolding demand
length-demand bs t = length-nonzero_from 0 (wanted bs t)

pub index_copy-eq-fill :
    (bs : List Bool) (t : List (Option ℕ)) (n : ℕ)
    → index_copy (nonzero_from 0 (wanted bs t)) n t ≡ fill bs t n
unfolding wanted fill nonzero_from index_copy
index_copy-eq-fill [] t n = refl
index_copy-eq-fill (b ∷ bs) [] n = refl
index_copy-eq-fill (b ∷ bs) (x ∷ t) n = elim (Bool-cases (b && is_absent x)) [
  | inl e ↦ rw e (
      index_copy-shift 0 (wanted bs t) (suc n) (some n) t
      ∙ ap (◌∷◌ (some n)) (index_copy-eq-fill bs t (suc n)))
  | inr e ↦ rw e (index_copy-shift 0 (wanted bs t) n x t ∙ ap (◌∷◌ x) (index_copy-eq-fill bs t n))
]

pub length-fill : (bs : List Bool) (t : List (Option ℕ)) (n : ℕ) → length (fill bs t n) ≡ length t
unfolding fill
length-fill [] t n = refl
length-fill (b ∷ bs) [] n = refl
length-fill (b ∷ bs) (x ∷ t) n = ap suc (length-fill bs t (if b && is_absent x then suc n else n))

-- How many atoms the table maps to slot `s`.
unfoldable pub slot_count : ℕ → List (Option ℕ) → ℕ
slot_count s [] = 0
slot_count s (none ∷ t) = slot_count s t
slot_count s (some k ∷ t) = (if k == s then 1 else 0) + slot_count s t

pub slot_count-fill :
    (bs : List Bool) (t : List (Option ℕ)) (n s : ℕ)
    → slot_count s (fill bs t n) ≡ slot_count s t + hits n (demand bs t) s
unfolding fill slot_count demand
slot_count-fill [] t n s = ground arith
slot_count-fill (b ∷ bs) [] n s = ground arith
slot_count-fill (true ∷ bs) (none ∷ t) n s = ground (arith, slot_count-fill bs t (suc n) s)
slot_count-fill (false ∷ bs) (none ∷ t) n s = ground (arith, slot_count-fill bs t n s)
slot_count-fill (true ∷ bs) (some k ∷ t) n s = ground (arith, slot_count-fill bs t n s)
slot_count-fill (false ∷ bs) (some k ∷ t) n s = ground (arith, slot_count-fill bs t n s)

pub slot_count-absent : (n s : ℕ) → slot_count s (replicate n none) ≡ 0
unfolding slot_count
slot_count-absent zero s = refl
slot_count-absent (suc n) s = slot_count-absent n s

abbrev pub is_resident : List (Option ℕ) → ℕ → Bool
is_resident t a = elim (get_elem? t a) [ none ↦ false | some x ↦ not (is_absent x) ]

-- An atom is resident afterwards exactly when it was or is asked for.
pub fill-resident :
    (bs : List Bool) (t : List (Option ℕ)) (n a : ℕ)
    → a < length t
    → is_resident (fill bs t n) a ≡ is_resident t a || get_or bs a false
unfolding fill is_absent
fill-resident [] t n a lt = ground arith
fill-resident (b ∷ bs) [] n a lt = elim lt [ ]
fill-resident (b ∷ bs) (x ∷ t) n zero lt = ground arith
fill-resident (b ∷ bs) (x ∷ t) n (suc a) lt = fill-resident bs t _ a (omega arith)

-- A resident atom keeps its slot.
pub fill_kept :
    (bs : List Bool) (t : List (Option ℕ)) (n a s : ℕ)
    → get_elem? t a ≡ some (some s)
    → get_elem? (fill bs t n) a ≡ some (some s)
unfolding fill is_absent
fill_kept [] t n a s h = h
fill_kept (b ∷ bs) [] n a s h = h
fill_kept (b ∷ bs) (x ∷ t) n zero s h = ground arith
fill_kept (b ∷ bs) (x ∷ t) n (suc a) s h = fill_kept bs t _ a s h

-- An atom that was absent gets a slot of the run.
pub fill_new :
    (bs : List Bool) (t : List (Option ℕ)) (n a s : ℕ)
    → get_elem? t a ≡ some none
    → get_elem? (fill bs t n) a ≡ some (some s)
    → hits n (demand bs t) s ≡ 1
unfolding fill is_absent demand
fill_new [] t n a s h k = ground arith
fill_new (b ∷ bs) [] n a s h k = cc
fill_new (b ∷ bs) (x ∷ t) n zero s h k = ground arith
fill_new (b ∷ bs) (x ∷ t) n (suc a) s h k =
    ground (arith, fill_new bs t (if b && is_absent x then suc n else n) a s h k)

-- A slot that an atom has is counted, and one that two atoms have is counted twice.
pub slot_count_pos :
    (t : List (Option ℕ)) (i s : ℕ) → get_elem? t i ≡ some (some s) → 0 < slot_count s t
unfolding slot_count
slot_count_pos [] i s h = cc
slot_count_pos (none ∷ t) zero s h = cc
slot_count_pos (some k ∷ t) zero s h = ground arith
slot_count_pos (none ∷ t) (suc i) s h = slot_count_pos t i s h
slot_count_pos (some k ∷ t) (suc i) s h = omega (arith, slot_count_pos t i s h)

pub slot_count_twice :
    (t : List (Option ℕ)) (i j s : ℕ)
    → i ≢ j
    → get_elem? t i ≡ some (some s)
    → get_elem? t j ≡ some (some s)
    → 1 < slot_count s t
unfolding slot_count
slot_count_twice [] i j s ne h k = cc
slot_count_twice (x ∷ t) zero zero s ne h k = absurd (ne refl)
slot_count_twice (none ∷ t) zero (suc j) s ne h k = cc
slot_count_twice (some m ∷ t) zero (suc j) s ne h k = ground (arith, slot_count_pos t j s)
slot_count_twice (none ∷ t) (suc i) zero s ne h k = cc
slot_count_twice (some m ∷ t) (suc i) zero s ne h k = ground (arith, slot_count_pos t i s)
slot_count_twice (none ∷ t) (suc i) (suc j) s ne h k =
    slot_count_twice t i j s (λ e. ne (ap suc e)) h k
slot_count_twice (some m ∷ t) (suc i) (suc j) s ne h k =
    omega (arith, slot_count_twice t i j s (λ e. ne (ap suc e)) h k)

-- Of an empty table everything that is asked for is demanded.
pub is_resident-absent : (n i : ℕ) → is_resident (replicate n none) i ≡ false
unfolding is_absent
is_resident-absent zero i = refl
is_resident-absent (suc n) zero = refl
is_resident-absent (suc n) (suc i) = is_resident-absent n i

pub get_elem?-absent : (n i : ℕ) → i < n → get_elem? {A = Option ℕ} (replicate n none) i ≡ some none
get_elem?-absent zero i lt = elim lt [ ]
get_elem?-absent (suc n) zero lt = refl
get_elem?-absent (suc n) (suc i) lt = get_elem?-absent n i (omega arith)

pub demand_full : (n : ℕ) → demand (replicate n true) (replicate n none) ≡ n
unfolding demand popcount wanted is_absent
demand_full zero = refl
demand_full (suc n) = omega (arith, demand_full n)
