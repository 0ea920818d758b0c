-- ===== src/Lattice/Admitted.antt =====
-- What `_admissible` answers: a box that fits the widths and the limits, or None.
use rola.Prelude.{
  All, Bool, Bool-cases, Exception, List, Option, Result, Result-cases, [], ap, arith, false,
  if-keeps, inl, inr, length, ltb, none, not, ok, ok_injective, prod, raised, refl, refuse_if, some,
  sum, sym, true, value_error, ℕ, ◌%◌, ◌==◌, ◌>>=◌, ◌^◌, ◌||◌, ◌∙◌, ◌∷◌, ◌≡◌, ◌≢◌, ◌≤◌, ◌⊎◌,
}
use rola.Lattice.{Level, owner_leaves}
use rola.Lattice.Box.{box_shape, exponents, levels, check_spans, innermost}
use rola.Lattice.Search.{spans_of, any_wide, within_cap, admit_box, admissible, lattice_cap_bc}

-- What a box is that the search may choose: the box of a lawful `k` and of an `m` not above the number
-- of leaves, of at most `LATTICE_CAP_BC` leaves to an owner and spans of at most `_MAX_SPAN`.
pub record IsCandidate (log2 : ℕ → ℕ) (widths : List ℕ) (k m : ℕ) (box : List Level) : Type 0 where
  pub kappa : ℕ
  pub k_is : k ≡ 2 ^ kappa
  pub k_le : 2 ^ kappa ≤ 4
  pub j : ℕ
  pub m_is : m ≡ 2 ^ j
  pub m_le : 2 ^ j ≤ prod widths
  pub fits : box_shape log2 widths k m ≡ ok box
  pub cap : owner_leaves box ≤ 128
  pub narrow : All (λ l. l.span ≤ 32) box

any_wide-false : (box : List Level) → All (λ l. l.span ≤ 32) box → any_wide (spans_of box) ≡ false
unfolding any_wide spans_of
any_wide-false [] p = refl
any_wide-false (l ∷ box) p = ground (arith, any_wide-false box p.1)

false-any_wide : (box : List Level) → any_wide (spans_of box) ≡ false → All (λ l. l.span ≤ 32) box
unfolding any_wide spans_of
false-any_wide [] p = tt
false-any_wide (l ∷ box) p = (ground arith, false-any_wide box (ground arith))

pub fitting-admissible :
    (log2 : ℕ → ℕ) (widths : List ℕ) (k m : ℕ) (box : List Level)
    → box_shape log2 widths k m ≡ ok box
    → owner_leaves box ≤ 128
    → All (λ l. l.span ≤ 32) box
    → admissible log2 k m widths ≡ ok (some (spans_of box))
unfolding admissible within_cap
fitting-admissible log2 widths k m box fits cap narrow =
    rw fits (ground (arith, any_wide-false box narrow))

within_cap-some :
    (box : List Level) (spans : List ℕ)
    → within_cap box ≡ some spans
    → (spans ≡ spans_of box) × (owner_leaves box ≤ 128) × All (λ l. l.span ≤ 32) box
unfolding within_cap
within_cap-some box spans h =
    elim (Bool-cases (ltb lattice_cap_bc (owner_leaves box) || any_wide (spans_of box))) [
      | inl out ↦ cc (rw out at h)
      | inr inside ↦ (cc (rw inside at h), ground arith, false-any_wide box (right _ _ inside))
    ]
  where
    right : (a b : Bool) → (a || b) ≡ false → b ≡ false
    right a b e = ground arith

not_caught : (x : Exception) (spans : List ℕ) → admit_box (raised x) ≢ ok (some spans)
unfolding admit_box
not_caught value_error spans h = cc
not_caught x spans h = cc

pub admissible-fitting :
    (log2 : ℕ → ℕ) (widths : List ℕ) (k m : ℕ) (spans : List ℕ)
    → admissible log2 k m widths ≡ ok (some spans)
    → (box : List Level) × (box_shape log2 widths k m ≡ ok box)
      × (spans ≡ spans_of box)
      × (owner_leaves box ≤ 128)
      × All (λ l. l.span ≤ 32) box
unfolding admissible admit_box
admissible-fitting log2 widths k m spans h = elim (Result-cases (box_shape log2 widths k m)) [
  | inl (box, e) ↦
      let found =
        within_cap-some box spans
          (ok_injective (within_cap box) (some spans) (sym (ap admit_box e) ∙ h)) in
      (box, e, found.0, found.1, found.2)
  | inr (x, e) ↦ absurd (not_caught x spans (sym (ap admit_box e) ∙ h))
]

-- A call that returns, or raises ValueError.
abbrev ValueErrorOnly {ℓ} : {A : Type ℓ} → Result A → Type ℓ
ValueErrorOnly {A} r = ((x : A) × (r ≡ ok x)) ⊎ (r ≡ raised value_error)

ValueErrorOnly->>= {ℓ} :
    {A : Type 0} {B : Type ℓ} (r : Result A) {f : A → Result B}
    → ValueErrorOnly r
    → ((x : A) → ValueErrorOnly (f x))
    → ValueErrorOnly (r >>= f)
ValueErrorOnly->>= r (inl (x, e)) h = rw e (h x)
ValueErrorOnly->>= r (inr e) h = inr (rw e)

refuse_if-ValueErrorOnly : (b : Bool) → ValueErrorOnly (refuse_if b value_error)
refuse_if-ValueErrorOnly true = inr refl
refuse_if-ValueErrorOnly false = inl (tt, refl)

innermost-ValueErrorOnly : (w : ℕ) (widths : List ℕ) → ValueErrorOnly (innermost (w ∷ widths))
unfolding innermost
innermost-ValueErrorOnly w [] = inl (w, refl)
innermost-ValueErrorOnly w (v ∷ widths) = innermost-ValueErrorOnly v widths

check_spans-ValueErrorOnly : (box : List Level) → ValueErrorOnly (check_spans box)
unfolding check_spans
check_spans-ValueErrorOnly [] = inl (tt, refl)
check_spans-ValueErrorOnly (l ∷ box) =
    if-keeps ValueErrorOnly (l.width % l.span == 0) (λ e. check_spans-ValueErrorOnly box)
      (λ e. inr refl)

box_shape-ValueErrorOnly :
    (log2 : ℕ → ℕ) (w : ℕ) (widths : List ℕ) (k m : ℕ)
    → ValueErrorOnly (box_shape log2 (w ∷ widths) k m)
unfolding box_shape
box_shape-ValueErrorOnly log2 w widths k m = refused (m == 0 || not (2 ^ log2 m == m)) λ t.
    refused (k == 0 || not (2 ^ log2 k == k)) λ u.
      ValueErrorOnly->>= (innermost (w ∷ widths)) (innermost-ValueErrorOnly w widths) λ width.
        refused (not (sum (chosen width) == log2 m)) λ v.
          ValueErrorOnly->>= (check_spans (levels k (w ∷ widths) (chosen width)))
            (check_spans-ValueErrorOnly (levels k (w ∷ widths) (chosen width)))
            λ x. inl (levels k (w ∷ widths) (chosen width), refl)
  where
    chosen : ℕ → List ℕ
    chosen width = exponents log2 (length (w ∷ widths)) k m width

    refused :
        (b : Bool) {f : Unit {0} → Result (List Level)}
        → ((x : Unit {0}) → ValueErrorOnly (f x))
        → ValueErrorOnly (refuse_if b value_error >>= f)
    refused b h = ValueErrorOnly->>= (refuse_if b value_error) (refuse_if-ValueErrorOnly b) h

-- On one level at least, `box_shape` raises nothing but ValueError, which `_admissible` catches.
pub admissible_total :
    (log2 : ℕ → ℕ) (w : ℕ) (widths : List ℕ) (k m : ℕ)
    → (o : Option (List ℕ)) × (admissible log2 k m (w ∷ widths) ≡ ok o)
unfolding admissible admit_box
admissible_total log2 w widths k m = elim (box_shape-ValueErrorOnly log2 w widths k m) [
  | inl (box, e) ↦ (within_cap box, rw e)
  | inr e ↦ (none, rw e)
]
