-- ===== src/Liveness/Boxes.antt =====
-- rola/engine/facts/liveness.py: a box, the folds over boxes, and the atoms as boxes.
use Prim.Native.Nat.{bit_and, bit_or}
use rola.Prelude.{
  Bool, List, Result, [], false, get_or, if◌then◌else◌, index_error, length, ltb, map, not, ok,
  raised, refuse_if, suc, true, value_error, zero, ℕ, ◌%◌, ◌*◌, ◌++◌, ◌+◌, ◌-◌, ◌/◌, ◌==◌, ◌>>=◌,
  ◌>>◌, ◌^◌, ◌||◌, ◌∷◌,
}
use rola.Liveness.{LivenessLayout, radix_strides, atom_leaves}
use rola.Liveness.Words.{ℤ, pos, negsuc, stored_word}

pub record Box : Type 0 where
  pub start : List ℕ
  pub span : List ℕ

-- The test of `Box.check` on one level's run.
unfoldable pub is_run : ℕ → ℕ → ℕ → Bool
is_run width start span = not (
    ltb span 1
    || ltb width span
    || not (width % span == 0)
    || not (start % span == 0)
    || ltb width (start + span))

-- The loop of `Box.check` over starts, spans and widths.
unfoldable pub check_runs : List ℕ → List ℕ → List ℕ → Result (Unit {0})
unfolding is_run
check_runs [] spans widths = ok tt
check_runs (start ∷ starts) [] widths = ok tt
check_runs (start ∷ starts) (span ∷ spans) [] = raised index_error
check_runs (start ∷ starts) (span ∷ spans) (width ∷ widths) =
    let rest = check_runs starts spans widths in
    if is_run width start span then rest else raised value_error

-- `Box.check`
unfoldable pub check_box : LivenessLayout → Box → Result (Unit {0})
unfolding check_runs
check_box l box = do
  refuse_if (not (length box.start == l.depth) || not (length box.span == l.depth)) value_error
  check_runs box.start box.span l.widths

-- `leaf + digits * stride`, for the `span` digits from `digit` on
unfoldable pub run_leaves : ℕ → ℕ → ℕ → ℕ → List ℕ
run_leaves leaf stride digit zero = []
run_leaves leaf stride digit (suc span) =
    (leaf + digit * stride) ∷ run_leaves leaf stride (suc digit) span

-- `(leaves[:, None] + (digits * stride)[None, :]).reshape(-1)`
unfoldable pub spread_leaves : List ℕ → ℕ → ℕ → ℕ → List ℕ
unfolding run_leaves
spread_leaves [] stride start span = []
spread_leaves (leaf ∷ leaves) stride start span =
    run_leaves leaf stride start span ++ spread_leaves leaves stride start span

-- The loop of `Box.leaves` over the levels.
unfoldable pub leaves_from : List ℕ → List ℕ → List ℕ → List ℕ → List ℕ
unfolding spread_leaves
leaves_from leaves [] starts spans = leaves
leaves_from leaves (stride ∷ strides) [] spans = leaves
leaves_from leaves (stride ∷ strides) (start ∷ starts) [] = leaves
leaves_from leaves (stride ∷ strides) (start ∷ starts) (span ∷ spans) =
    leaves_from (spread_leaves leaves stride start span) strides starts spans

-- `Box.leaves`
unfoldable pub box_leaf_ids : LivenessLayout → Box → Result (List ℕ)
unfolding check_box leaves_from
box_leaf_ids l box = do
  check_box l box
  ok (leaves_from (0 ∷ []) (radix_strides l) box.start box.span)

unfoldable pub insert_unique : ℕ → List ℕ → List ℕ
insert_unique x [] = x ∷ []
insert_unique x (y ∷ ys) =
    let rest = insert_unique x ys in
    if ltb x y then x ∷ y ∷ ys else if x == y then y ∷ ys else y ∷ rest

-- `torch.unique`, which sorts
unfoldable pub unique : List ℕ → List ℕ
unfolding insert_unique
unique [] = []
unique (x ∷ xs) = insert_unique x (unique xs)

-- `Box.pages`
unfoldable pub box_pages : LivenessLayout → Box → Result (List ℕ)
unfolding box_leaf_ids unique
box_pages l box =
    box_leaf_ids l box >>= λ leaves. ok (unique (map (λ leaf. leaf / atom_leaves) leaves))

-- The 32 bits of a stored word, as a number, and `|` and `&` on stored words.
unfoldable pub word_bits : ℤ → ℕ
word_bits (pos n) = n
word_bits (negsuc n) = 2 ^ 32 - 1 - n

unfoldable pub or_rows : List ℤ → List ℤ → List ℤ
unfolding word_bits
or_rows [] right = []
or_rows (a ∷ left) [] = []
or_rows (a ∷ left) (b ∷ right) =
    stored_word (bit_or (word_bits a) (word_bits b)) ∷ or_rows left right

unfoldable pub and_rows : List ℤ → List ℤ → List ℤ
unfolding word_bits
and_rows [] right = []
and_rows (a ∷ left) [] = []
and_rows (a ∷ left) (b ∷ right) =
    stored_word (bit_and (word_bits a) (word_bits b)) ∷ and_rows left right

-- The loop of `_or_rows` over the rows after the first.
unfoldable pub or_from : List (List ℤ) → ℕ → ℕ → List ℤ → List ℤ
unfolding or_rows
or_from table row zero run = run
or_from table row (suc count) run =
    or_from table (suc row) count (or_rows run (get_or table row []))

-- `_or_rows`
unfoldable pub or_run : List (List ℤ) → ℕ → ℕ → List ℤ
unfolding or_from
or_run table base span = or_from table (base + 1) (span - 1) (get_or table base [])

unfoldable pub is_nonzero : ℤ → Bool
is_nonzero (pos n) = not (n == 0)
is_nonzero (negsuc n) = true

unfoldable pub any : List Bool → Bool
any [] = false
any (b ∷ bs) = b || any bs
