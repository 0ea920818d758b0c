-- ===== src/Lattice/Planes.antt =====
-- A plane in lattice order, read back in canonical order, is the plane.
use rola.Prelude.{
  ==_iff, All, List, [], ap, arith, get_elem?, get_elem?-set_ne, get_elem?-set_self, length,
  length-set, map, ok, prod, refl, set, some, suc, sym, zero, ℕ, ◌+◌, ◌<◌, ◌∙◌, ◌∷◌, ◌≡◌, ◌≢◌, ◌≤◌,
}
use rola.Tensor.{arange}
use rola.Lattice.{Level, leaves, lattice_index}
use rola.Lattice.Box.{box_shape, permutation}
use rola.Lattice.Fitted.{box_shape-IsFitted, box_shape_distinct}
use rola.Lattice.Convert.{copy_rows, select_rows, to_lattice, to_canonical}

module _ {ℓ} {P : Type ℓ} (f : ℕ → ℕ) where
  length-copy_rows : (pi : List ℕ) (rows out : List P) → length (copy_rows pi rows out) ≡ length out
  unfolding copy_rows
  length-copy_rows [] rows out = refl
  length-copy_rows (p ∷ pi) [] out = refl
  length-copy_rows (p ∷ pi) (x ∷ rows) out =
      length-copy_rows pi rows (set out p x) ∙ length-set out p x

  -- A row that is not written stays.
  copy_rows_other :
      (a n : ℕ) (rows out : List P) (q : ℕ)
      → ((i : ℕ) → a ≤ i → i < a + n → f i ≢ q)
      → get_elem? (copy_rows (map f (arange a n)) rows out) q ≡ get_elem? out q
  unfolding copy_rows arange
  copy_rows_other a zero rows out q apart = refl
  copy_rows_other a (suc n) [] out q apart = refl
  copy_rows_other a (suc n) (x ∷ rows) out q apart =
      copy_rows_other (suc a) n rows (set out (f a) x) q
        (λ i le lt. apart i (omega arith) (omega arith))
      ∙ get_elem?-set_ne out x (apart a (omega arith) (omega arith))

  -- A row that is written is found where it went.
  copy_rows_written :
      (a n : ℕ) (rows out : List P) (i : ℕ)
      → ((i j : ℕ) → a ≤ i → i < a + n → a ≤ j → j < a + n → f i ≡ f j → i ≡ j)
      → ((i : ℕ) → a ≤ i → i < a + n → f i < length out)
      → length rows ≡ n
      → i < n
      → get_elem? (copy_rows (map f (arange a n)) rows out) (f (a + i)) ≡ get_elem? rows i
  unfolding copy_rows arange
  copy_rows_written a zero rows out i one inside len lt = elim lt [ ]
  copy_rows_written a (suc n) [] out i one inside len lt = absurd (omega arith)
  copy_rows_written a (suc n) (x ∷ rows) out zero one inside len lt =
      ap (get_elem? (copy_rows (map f (arange (suc a) n)) rows (set out (f a) x)))
        (ap f {x = a + 0} {y = a} (omega arith))
      ∙ copy_rows_other (suc a) n rows (set out (f a) x) (f a)
          (λ j le lt' e. absurd (apart j le lt' e))
      ∙ get_elem?-set_self out (f a) x (inside a (omega arith) (omega arith))
    where
      apart : (j : ℕ) → suc a ≤ j → j < suc a + n → f j ≢ f a
      apart j le lt' e =
          absurd (omega (arith, one j a (omega arith) (omega arith) (omega arith) (omega arith) e))
  copy_rows_written a (suc n) (x ∷ rows) out (suc i) one inside len lt =
      ap (get_elem? (copy_rows (map f (arange (suc a) n)) rows (set out (f a) x)))
        (ap f {x = a + suc i} {y = suc a + i} (omega arith))
      ∙ copy_rows_written (suc a) n rows (set out (f a) x) i
          (λ j j' le l le' l' e. one j j' (omega arith) (omega arith) (omega arith) (omega arith) e)
          (λ j le l. omega (arith, length-set out (f a) x, inside j (omega arith) (omega arith)))
          (omega arith) (omega arith)

  select_rows_cons :
      (p : ℕ) (pi : List ℕ) (x : P) (rows plane : List P)
      → get_elem? plane p ≡ some x
      → select_rows pi plane ≡ ok rows
      → select_rows (p ∷ pi) plane ≡ ok (x ∷ rows)
  unfolding select_rows
  select_rows_cons p pi x rows plane here rest = ground (arith, here, rest)

  -- The rows selected at known places.
  select_rows_known :
      (a n : ℕ) (rows plane : List P)
      → length rows ≡ n
      → ((i : ℕ) → i < n → get_elem? plane (f (a + i)) ≡ get_elem? rows i)
      → select_rows (map f (arange a n)) plane ≡ ok rows
  unfolding select_rows arange
  select_rows_known a zero [] plane len at = refl
  select_rows_known a zero (x ∷ rows) plane len at = absurd (omega arith)
  select_rows_known a (suc n) [] plane len at = absurd (omega arith)
  select_rows_known a (suc n) (x ∷ rows) plane len at =
      select_rows_cons (f a) (map f (arange (suc a) n)) x rows plane
        (ap (λ j. get_elem? plane (f j)) {x = a} {y = a + 0} (omega arith) ∙ at 0 (omega arith))
        (select_rows_known (suc a) n rows plane (omega arith) λ i lt.
          ap (λ j. get_elem? plane (f j)) {x = suc a + i} {y = a + suc i} (omega arith)
          ∙ at (suc i) (omega arith))

-- A plane of a row for each leaf, over positive widths and a box that `box_shape` returns, is put
-- in lattice order by `to_lattice`, whatever the new tensor held, and `to_canonical` gives the
-- plane back.
pub to_canonical-to_lattice {ℓ} :
    {P : Type ℓ} (log2 : ℕ → ℕ) (widths : List ℕ) (k m : ℕ) (box : List Level)
    (empty plane : List P)
    → All (λ w. 0 < w) widths
    → box_shape log2 widths k m ≡ ok box
    → length plane ≡ prod widths
    → length empty ≡ prod widths
    → (lattice : List P) × (to_lattice log2 widths k m empty plane ≡ ok lattice)
      × (to_canonical log2 widths k m lattice ≡ ok plane)
unfolding to_lattice to_canonical permutation
to_canonical-to_lattice log2 widths k m box empty plane pos fits len len' = (
  copy_rows pi plane empty,
  rw (fits, (==_iff (length plane) (prod widths)).1 len),
  rw
      (
        fits,
        (==_iff (length (copy_rows pi plane empty)) (prod widths)).1
            (length-copy_rows (lattice_index box) pi plane empty ∙ len'),
      )
      (select_rows_known (lattice_index box) 0 (leaves box) plane (copy_rows pi plane empty)
        (len ∙ sym whole)
        λ i lt.
          copy_rows_written (lattice_index box) 0 (leaves box) plane empty i
            (λ i j ge l ge' l' e.
              (box_shape_distinct log2 widths k m box i j pos fits (omega (arith, whole))
                  (omega (arith, whole))).1
                e)
            (λ i ge l. omega (
              arith,
              whole,
              len',
              (box_shape_distinct log2 widths k m box i i pos fits (omega (arith, whole))
                  (omega (arith, whole))).0,
            ))
            (len ∙ sym whole) lt),
)
  where
    pi : List ℕ
    pi = map (lattice_index box) (arange 0 (leaves box))

    whole : leaves box ≡ prod widths
    whole = (box_shape-IsFitted log2 widths k m box pos fits).1
