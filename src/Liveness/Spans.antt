-- ===== src/Liveness/Spans.antt =====
-- The atom as a box: its spans, over the widths that a state's format accepts.
use mathlib.Core.List.{reverse, reverse-cons}
use rola.Prelude.{
  All, List, [], ap, arith, length, length-append, min, not, ok, refl, refuse_if, replicate,
  value_error, ℕ, ◌++◌, ◌-◌, ◌<◌, ◌==◌, ◌>>=◌, ◌>>◌, ◌∙◌, ◌∷◌, ◌≡◌,
}
use rola.State.Widths.{IsLawful, lawful-multiple}
use rola.Liveness.{LivenessLayout, atom_leaves}
use rola.Liveness.Folds.{spans_from, atom_spans}

All-append {ℓ κ} :
    {A : Type ℓ} (P : A → Type κ) (xs ys : List A) → All P xs → All P ys → All P (xs ++ ys)
All-append P [] ys p q = q
All-append P (x ∷ xs) ys p q = (p.0, All-append P xs ys p.1 q)

All-reverse {ℓ κ} : {A : Type ℓ} (P : A → Type κ) (xs : List A) → All P xs → All P (reverse xs)
All-reverse P [] p = tt
All-reverse P (x ∷ xs) p =
    rw (reverse-cons x xs) (All-append P (reverse xs) (x ∷ []) (All-reverse P xs p.1) (p.0, tt))

spans_from-lawful :
    (width : ℕ) (widths : List ℕ)
    → IsLawful width
    → spans_from 16 (width ∷ widths) ≡ ok (16 ∷ replicate (length widths) 1, 1)
unfolding spans_from
spans_from-lawful width widths l =
    let (q, e) = lawful-multiple width l in rw (narrow) (ground (arith, e))
  where
    narrow : min width 16 ≡ 16
    narrow = omega (arith, l.floor)

-- Over lawful widths, one at least, `atom_spans` returns: the last level's span is the whole atom,
-- and every other level's is one digit.
pub atom_spans_lawful :
    (l : LivenessLayout)
    → All IsLawful l.widths
    → 0 < length l.widths
    → atom_spans l ≡ ok (reverse (16 ∷ replicate (length l.widths - 1) 1))
unfolding atom_spans
atom_spans_lawful l lawful some_level =
    from (reverse l.widths) (All-reverse IsLawful l.widths lawful) (length-reverse_ℕ l.widths)
  where
    from :
        (ws : List ℕ)
        → All IsLawful ws
        → length ws ≡ length l.widths
        → (spans_from atom_leaves ws >>= λ done.
            refuse_if (not (done.1 == 1)) value_error >> ok (reverse done.0))
          ≡ ok (reverse (16 ∷ replicate (length l.widths - 1) 1))
    from [] p e = absurd (omega (arith, e))
    from (w ∷ ws) p e = rw (spans_from-lawful w ws p.0) (
        ap (λ n. ok (reverse (16 ∷ replicate n 1))) {x = length ws} {y = length l.widths - 1}
          (omega (arith, e)))

    length-reverse_ℕ : (xs : List ℕ) → length (reverse xs) ≡ length xs
    length-reverse_ℕ [] = refl
    length-reverse_ℕ (x ∷ xs) =
        ap length (reverse-cons x xs)
        ∙ omega (arith, length-append (reverse xs) (x ∷ []), length-reverse_ℕ xs)
