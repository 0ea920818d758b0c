-- ===== src/Tensor/Laws.antt =====
-- The tensor operations, entry by entry.
use rola.Prelude.{
  ==_iff, Bool, Bool-cases, List, Option, [], ap, arith, false, get_elem?, get_elem?-set_ne,
  get_elem?-set_self, if◌then◌else◌, inl, inr, leb, length, length-set, ltb, refl, set, some, suc,
  sym, true, zero, ℕ, ◌&&◌, ◌++◌, ◌+◌, ◌<◌, ◌==◌, ◌∙◌, ◌∷◌, ◌≡◌,
}
use rola.Tensor.{arange, nonzero_from, popcount, index_copy, zero_run}

-- 1 if `s` is one of the `k` numbers from `lo` on.
abbrev pub hits : ℕ → ℕ → ℕ → ℕ
hits lo k s = if leb lo s && ltb s (lo + k) then 1 else 0

pub hits-append : (lo m n s : ℕ) → hits lo (m + n) s ≡ hits lo m s + hits (lo + m) n s
hits-append lo m n s = ground arith

unfoldable pub count : ℕ → List ℕ → ℕ
count s [] = 0
count s (x ∷ xs) = (if x == s then 1 else 0) + count s xs

pub count-append : (s : ℕ) (xs ys : List ℕ) → count s (xs ++ ys) ≡ count s xs + count s ys
unfolding count
count-append s [] ys = omega arith
count-append s (x ∷ xs) ys = omega (arith, count-append s xs ys)

pub count-arange : (lo n s : ℕ) → count s (arange lo n) ≡ hits lo n s
unfolding count arange
count-arange lo zero s = ground arith
count-arange lo (suc n) s = ground (arith, count-arange (suc lo) n s)

pub length-arange : (lo n : ℕ) → length (arange lo n) ≡ n
unfolding arange
length-arange lo zero = refl
length-arange lo (suc n) = ap suc (length-arange (suc lo) n)

pub length-nonzero_from : (i : ℕ) (bs : List Bool) → length (nonzero_from i bs) ≡ popcount bs
unfolding nonzero_from popcount
length-nonzero_from i [] = refl
length-nonzero_from i (true ∷ bs) = omega (arith, length-nonzero_from (suc i) bs)
length-nonzero_from i (false ∷ bs) = omega (arith, length-nonzero_from (suc i) bs)

-- Indices counted one further on leave the first entry alone.
pub index_copy-shift :
    (i : ℕ) (bs : List Bool) (n : ℕ) (x : Option ℕ) (t : List (Option ℕ))
    → index_copy (nonzero_from (suc i) bs) n (x ∷ t) ≡ x ∷ index_copy (nonzero_from i bs) n t
unfolding index_copy nonzero_from
index_copy-shift i [] n x t = refl
index_copy-shift i (true ∷ bs) n x t = index_copy-shift (suc i) bs (suc n) x (set t i (some n))
index_copy-shift i (false ∷ bs) n x t = index_copy-shift (suc i) bs n x t

module _ {ℓ} {P : Type ℓ} (zeros : P) where
  pub length-zero_run :
      (first n : ℕ) (store : List P) → length (zero_run zeros first n store) ≡ length store
  unfolding zero_run
  length-zero_run first zero store = refl
  length-zero_run first (suc n) store =
      length-zero_run (suc first) n (set store first zeros) ∙ length-set store first zeros

  -- A page outside the run is what it was.
  pub zero_run_outside :
      (first n : ℕ) (store : List P) (i : ℕ)
      → hits first n i ≡ 0
      → get_elem? (zero_run zeros first n store) i ≡ get_elem? store i
  unfolding zero_run
  zero_run_outside first zero store i h = refl
  zero_run_outside first (suc n) store i h =
      zero_run_outside (suc first) n (set store first zeros) i (ground arith)
      ∙ get_elem?-set_ne store zeros (ground arith)

  -- A page inside it is zero.
  pub zero_run_inside :
      (first n : ℕ) (store : List P) (i : ℕ)
      → i < length store
      → hits first n i ≡ 1
      → get_elem? (zero_run zeros first n store) i ≡ some zeros
  unfolding zero_run
  zero_run_inside first zero store i lt h = absurd (ground arith)
  zero_run_inside first (suc n) store i lt h = elim (Bool-cases (first == i)) [
    | inl e ↦
        let same : i ≡ first = sym ((==_iff first i).0 e) in
        zero_run_outside (suc first) n (set store first zeros) i (ground arith)
        ∙ rw same (get_elem?-set_self store first zeros (omega arith))
    | inr e ↦
        zero_run_inside (suc first) n (set store first zeros) i
          (omega (arith, length-set store first zeros)) (ground arith)
  ]
