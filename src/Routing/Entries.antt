-- ===== src/Routing/Entries.antt =====
-- The checks of `RouteFactors` on one side, and on one column.
use rola.Prelude.{
  List, Option, Result-cases, [], ap, arith, get_or, inl, inr, length, ok, refl, some, suc, sym,
  take, true, ℕ, ◌++◌, ◌↔◌, ◌∙◌, ◌∷◌, ◌≡◌,
}
use mathlib.Core.Path.{subst}
use rola.Routing.Descriptor.{TensorFacts, Dtype}
use rola.Routing.Metadata.{tuple_eq_iff}
use rola.Routing.Factors.{
  Entry, prefix_of, same_dtype, agree_with, check_level, check_side, is_prefix, check_column,
}

-- A tensor of a level: of the dimensions `p` and then `w`, on the device and of the type given.
abbrev pub IsLevel : List ℕ → ℕ → Dtype → ℕ → Entry → Type 0
IsLevel p device dtype w Entry.missing = ⊥
IsLevel p device dtype w Entry.foreign = ⊥
IsLevel p device dtype w (Entry.tensor t) =
    (t.shape ≡ p ++ (w ∷ [])) × (t.device ≡ device) × (t.dtype ≡ dtype)

-- As many levels as widths, each of its own.
abbrev pub AreLevels : List ℕ → ℕ → Dtype → List ℕ → List Entry → Type 0
AreLevels p device dtype [] [] = Unit
AreLevels p device dtype (w ∷ widths) (e ∷ entries) =
    IsLevel p device dtype w e × AreLevels p device dtype widths entries
AreLevels p device dtype [] (e ∷ entries) = ⊥
AreLevels p device dtype (w ∷ widths) [] = ⊥

abbrev pub IsColumn : List ℕ → Entry → Type 0
IsColumn p Entry.missing = Unit
IsColumn p Entry.foreign = ⊥
IsColumn p (Entry.tensor t) = t.shape ≡ p

same_dtype_iff : (a b : Dtype) → (same_dtype a b ≡ true) ↔ (a ≡ b)
unfolding same_dtype
same_dtype_iff Dtype.bfloat16 Dtype.bfloat16 = (λ h. refl, λ h. refl)
same_dtype_iff Dtype.int32 Dtype.int32 = (λ h. refl, λ h. refl)
same_dtype_iff (Dtype.other_dtype a) (Dtype.other_dtype b) =
    (λ h. ap Dtype.other_dtype (ground arith), λ h. let e : a ≡ b = cc in ground arith)
same_dtype_iff Dtype.bfloat16 Dtype.int32 = (λ h. cc, λ h. cc)
same_dtype_iff Dtype.bfloat16 (Dtype.other_dtype b) = (λ h. cc, λ h. cc)
same_dtype_iff Dtype.int32 Dtype.bfloat16 = (λ h. cc, λ h. cc)
same_dtype_iff Dtype.int32 (Dtype.other_dtype b) = (λ h. cc, λ h. cc)
same_dtype_iff (Dtype.other_dtype a) Dtype.bfloat16 = (λ h. cc, λ h. cc)
same_dtype_iff (Dtype.other_dtype a) Dtype.int32 = (λ h. cc, λ h. cc)

-- A shape of four dimensions, of which the last is given.
pub of_four : (s : List ℕ) (w : ℕ) → length s ≡ 4 → get_or s 3 0 ≡ w → s ≡ take 3 s ++ (w ∷ [])
of_four [] w h e = absurd (omega arith)
of_four (a ∷ []) w h e = absurd (omega arith)
of_four (a ∷ b ∷ []) w h e = absurd (omega arith)
of_four (a ∷ b ∷ c ∷ []) w h e = absurd (omega arith)
of_four (a ∷ b ∷ c ∷ d ∷ []) w h e = ap (λ x. a ∷ b ∷ c ∷ x ∷ []) e
of_four (a ∷ b ∷ c ∷ d ∷ x ∷ s) w h e = absurd (omega arith)

pub agree_with-fits :
    (a t : TensorFacts)
    → (agree_with (some a) t ≡ ok a)
      ↔ ((prefix_of t ≡ prefix_of a) × (t.device ≡ a.device) × (t.dtype ≡ a.dtype))
unfolding agree_with
agree_with-fits a t = (
  λ h. (
    (tuple_eq_iff (prefix_of t) (prefix_of a)).0 (ground arith),
    ground arith,
    (same_dtype_iff t.dtype a.dtype).0 (ground arith),
  ),
  λ h. ground (
    arith,
    (tuple_eq_iff (prefix_of t) (prefix_of a)).1 h.0,
    h.1,
    (same_dtype_iff t.dtype a.dtype).1 h.2,
  ),
)

pub agree_with-keeps : (a t b : TensorFacts) → agree_with (some a) t ≡ ok b → b ≡ a
unfolding agree_with
agree_with-keeps a t b h = ground (arith, h)

-- The prefix of a shape of three dimensions and one more.
pub prefix-append :
    (p : List ℕ) (t : TensorFacts) (w : ℕ)
    → length p ≡ 3
    → t.shape ≡ p ++ (w ∷ [])
    → (prefix_of t ≡ p) × (length t.shape ≡ 4) × (get_or t.shape 3 0 ≡ w)
unfolding prefix_of
prefix-append [] t w n e = absurd (omega arith)
prefix-append (a ∷ []) t w n e = absurd (omega arith)
prefix-append (a ∷ b ∷ []) t w n e = absurd (omega arith)
prefix-append (a ∷ b ∷ c ∷ []) t w n e = (ap (take 3) e, ap length e, ap (λ s. get_or s 3 0) e)
prefix-append (a ∷ b ∷ c ∷ d ∷ p) t w n e = absurd (omega arith)

-- A level that is let in behind the tensor `a` is one of its prefix, device and type.
check_level-IsLevel :
    (a b : TensorFacts) (w : ℕ) (e : Entry)
    → check_level (some a) w e ≡ ok b
    → (b ≡ a) × IsLevel (prefix_of a) a.device a.dtype w e
unfolding check_level prefix_of
check_level-IsLevel a b w Entry.missing h = cc
check_level-IsLevel a b w Entry.foreign h = cc
check_level-IsLevel a b w (Entry.tensor t) h =
    let agrees : agree_with (some a) t ≡ ok b = ground (arith, h) in
    let same = agree_with-keeps a t b agrees in
    let fits = (agree_with-fits a t).0 (agrees ∙ ap ok same) in
    (
      same,
      (
        subst (λ p. t.shape ≡ p ++ (w ∷ [])) fits.0
            (shape_of t w (ground (arith, h)) (ground (arith, h))),
        fits.1,
        fits.2,
      ),
    )
  where
    shape_of :
        (t : TensorFacts) (w : ℕ)
        → length t.shape ≡ 4
        → get_or t.shape 3 0 ≡ w
        → t.shape ≡ prefix_of t ++ (w ∷ [])
    shape_of t w n g = of_four t.shape w n g

pub check_side-AreLevels :
    (a : TensorFacts) (o : Option TensorFacts) (widths : List ℕ) (entries : List Entry)
    → length entries ≡ length widths
    → check_side (some a) widths entries ≡ ok o
    → (o ≡ some a) × AreLevels (prefix_of a) a.device a.dtype widths entries
unfolding check_side
check_side-AreLevels a o [] [] n h = (cc, tt)
check_side-AreLevels a o [] (e ∷ entries) n h = absurd (omega arith)
check_side-AreLevels a o (w ∷ widths) [] n h = absurd (omega arith)
check_side-AreLevels a o (w ∷ widths) (e ∷ entries) n h =
    elim (Result-cases (check_level (some a) w e)) [
      | inr (x, f) ↦ cc (rw f at h)
      | inl (b, f) ↦
          let level = check_level-IsLevel a b w e f in
          let onward : check_side (some a) widths entries ≡ ok o =
            subst (λ c. check_side (some c) widths entries ≡ ok o) level.0 (rw f at h) in
          let rest = check_side-AreLevels a o widths entries (omega arith) onward in
          (rest.0, (level.1, rest.1))
    ]

pub AreLevels-check_side :
    (p : List ℕ) (a : TensorFacts) (widths : List ℕ) (entries : List Entry)
    → length p ≡ 3
    → prefix_of a ≡ p
    → AreLevels p a.device a.dtype widths entries
    → (length entries ≡ length widths) × (check_side (some a) widths entries ≡ ok (some a))
unfolding check_side check_level
AreLevels-check_side p a [] [] n q h = (refl, refl)
AreLevels-check_side p a [] (e ∷ entries) n q h = absurd h
AreLevels-check_side p a (w ∷ widths) [] n q h = absurd h
AreLevels-check_side p a (w ∷ widths) (Entry.missing ∷ entries) n q h = absurd h.0
AreLevels-check_side p a (w ∷ widths) (Entry.foreign ∷ entries) n q h = absurd h.0
AreLevels-check_side p a (w ∷ widths) (Entry.tensor t ∷ entries) n q h =
    let shaped = prefix-append p t w n h.0.0 in
    let agrees = (agree_with-fits a t).1 (shaped.0 ∙ sym q, h.0.1, h.0.2) in
    let rest = AreLevels-check_side p a widths entries n q h.1 in
    (ap suc rest.0, rw (shaped.1, shaped.2, agrees) (ground (arith, rest.1)))

-- A column is let in exactly when it is absent or has the prefix.
pub check_column_iff :
    (a : TensorFacts) (e : Entry) → (check_column (some a) e ≡ ok tt) ↔ IsColumn (prefix_of a) e
unfolding check_column is_prefix
check_column_iff a Entry.missing = (λ h. tt, λ h. refl)
check_column_iff a Entry.foreign = (λ h. cc, λ h. absurd h)
check_column_iff a (Entry.tensor t) = (
  λ h. (tuple_eq_iff t.shape (prefix_of a)).0 (ground arith),
  λ h. ground (arith, (tuple_eq_iff t.shape (prefix_of a)).1 h),
)
