-- ===== src/Routing/Runs.antt =====
-- The runs of packed columns: the columns of the slots, in their order, with no two runs that abut.
use rola.Prelude.{
  ==_iff, All, Bool-cases, List, [], ap, arith, inl, inr, refl, suc, sym, zero, ℕ, ◌++◌, ◌+◌, ◌-◌,
  ◌==◌, ◌∙◌, ◌∷◌, ◌≡◌, ◌≢◌, ◌≤◌,
}
use mathlib.Core.List.{append_assoc}
use rola.Tensor.{arange}
use rola.Routing.Packed.{merge_span, in_order}

-- The columns of spans, in order.
unfoldable pub columns : List (ℕ × ℕ) → List ℕ
columns [] = []
columns ((start, stop) ∷ spans) = arange start (stop - start) ++ columns spans

-- The columns of runs of which the last stands in front.
unfoldable pub back_columns : List (ℕ × ℕ) → List ℕ
back_columns [] = []
back_columns ((start, stop) ∷ spans) = back_columns spans ++ arange start (stop - start)

pub arange-append : (a m n : ℕ) → arange a (m + n) ≡ arange a m ++ arange (a + m) n
unfolding arange
arange-append a zero n = (λ i. arange (e i) (f i))
  where
    e : a ≡ a + 0
    e = omega arith

    f : 0 + n ≡ n
    f = omega arith
arange-append a (suc m) n =
    ap (arange a) {x = suc m + n} {y = suc (m + n)} (omega arith)
    ∙ ap (◌∷◌ a) (
        arange-append (suc a) m n
        ∙ ap (λ j. arange (suc a) m ++ arange j n) {x = suc a + m} {y = a + suc m} (omega arith))

abbrev pub IsSpan : ℕ × ℕ → Type 0
IsSpan span = span.0 ≤ span.1

pub back_columns-merge_span :
    (span : ℕ × ℕ) (runs : List (ℕ × ℕ))
    → IsSpan span
    → All IsSpan runs
    → (back_columns (merge_span span runs) ≡ back_columns runs ++ arange span.0 (span.1 - span.0))
      × All IsSpan (merge_span span runs)
unfolding merge_span back_columns
back_columns-merge_span span [] le p = (refl, (le, tt))
back_columns-merge_span (a, b) ((c, d) ∷ runs) le p = elim (Bool-cases (d == a)) [
  | inl abuts ↦
      let d_is : d ≡ a = (==_iff d a).0 abuts in
      rw abuts (joined d_is, (omega (arith, le, p.0, d_is), p.1))
  | inr apart ↦ rw apart (refl, (le, p))
]
  where
    joined :
        d ≡ a
        → back_columns runs ++ arange c (b - c)
          ≡ (back_columns runs ++ arange c (d - c)) ++ arange a (b - a)
    joined e =
        ap (◌++◌ (back_columns runs)) (
          ap (arange c) {x = b - c} {y = (d - c) + (b - a)} (omega (arith, le, p.0))
          ∙ arange-append c (d - c) (b - a)
          ∙ ap (λ j. arange c (d - c) ++ arange j (b - a)) {x = c + (d - c)} {y = a}
              (omega (arith, p.0)))
        ∙ sym (append_assoc (back_columns runs) (arange c (d - c)) (arange a (b - a)))

pub columns-in_order :
    (runs done : List (ℕ × ℕ)) → columns (in_order runs done) ≡ back_columns runs ++ columns done
unfolding in_order columns back_columns
columns-in_order [] done = refl
columns-in_order ((a, b) ∷ runs) done =
    columns-in_order runs ((a, b) ∷ done)
    ∙ sym (append_assoc (back_columns runs) (arange a (b - a)) (columns done))

-- No run ends where the next begins; the second for runs of which the last stands in front.
abbrev pub Separated : List (ℕ × ℕ) → Type 0
Separated [] = Unit
Separated (r ∷ []) = Unit
Separated (r ∷ s ∷ runs) = (r.1 ≢ s.0) × Separated (s ∷ runs)

abbrev pub BackSeparated : List (ℕ × ℕ) → Type 0
BackSeparated [] = Unit
BackSeparated (r ∷ []) = Unit
BackSeparated (s ∷ r ∷ runs) = (r.1 ≢ s.0) × BackSeparated (r ∷ runs)

pub merge_span-BackSeparated :
    (span : ℕ × ℕ) (runs : List (ℕ × ℕ)) → BackSeparated runs → BackSeparated (merge_span span runs)
unfolding merge_span
merge_span-BackSeparated span [] h = tt
merge_span-BackSeparated (a, b) ((c, d) ∷ []) h = elim (Bool-cases (d == a)) [
  | inl abuts ↦ rw abuts tt
  | inr apart ↦ rw apart (λ e. cc (rw ((==_iff d a).1 e) at apart), tt)
]
merge_span-BackSeparated (a, b) ((c, d) ∷ (e, f) ∷ runs) h = elim (Bool-cases (d == a)) [
  | inl abuts ↦ rw abuts h
  | inr apart ↦ rw apart (λ e. cc (rw ((==_iff d a).1 e) at apart), h)
]

abbrev pub Apart : List (ℕ × ℕ) → List (ℕ × ℕ) → Type 0
Apart [] done = Unit
Apart (r ∷ runs) [] = Unit
Apart (r ∷ runs) (s ∷ done) = r.1 ≢ s.0

pub in_order-Separated :
    (runs done : List (ℕ × ℕ))
    → BackSeparated runs
    → Separated done
    → Apart runs done
    → Separated (in_order runs done)
unfolding in_order
in_order-Separated [] done h h' meet = h'
in_order-Separated (r ∷ []) [] h h' meet = tt
in_order-Separated (r ∷ []) (s ∷ done) h h' meet = (meet, h')
in_order-Separated (r ∷ q ∷ runs) [] h h' meet = in_order-Separated (q ∷ runs) (r ∷ []) h.1 tt h.0
in_order-Separated (r ∷ q ∷ runs) (s ∷ done) h h' meet =
    in_order-Separated (q ∷ runs) (r ∷ s ∷ done) h.1 (meet, h') h.0

pub Apart-nil : (runs : List (ℕ × ℕ)) → Apart runs []
Apart-nil [] = tt
Apart-nil (r ∷ runs) = tt
