-- ===== src/Routing/Clock.antt =====
-- When a decay is accepted over a topology.
use rola.Prelude.{
  All, List, Option, Result-cases, [], ap, arith, false, get_or, inl, inr, length, map, none, not,
  ok, refl, refuse_if, some, suc, sym, value_error, ℕ, ◌<◌, ◌==◌, ◌>>=◌, ◌>>◌, ◌↔◌, ◌∙◌, ◌∷◌, ◌≡◌,
}
use mathlib.Core.Path.{subst}
use rola.Routing.{LevelRouting, Duty, width_of}
use rola.Routing.Constructed.{IsConstructed, constructed-HasRow}
use rola.Routing.Decay.{
  Dial, DialFacts, heads_after, other_heads, last_extent, dial_width, check_dials, leaf_mass_decay,
  unnormalized_from, check_dial_widths, validate_against,
}

unnormalized_from-none :
    (i : ℕ) (levels : List LevelRouting)
    → All IsConstructed levels
    → unnormalized_from i levels ≡ ok []
unfolding unnormalized_from
unnormalized_from-none i [] p = refl
unnormalized_from-none i (level ∷ levels) p =
    let r = constructed-HasRow level Duty.write p.0 in
    rw (r.found, unnormalized_from-none (suc i) levels p.1, r.is_normalized)

-- A dial of shape [heads, width], of which no entry compares below 0 or at least 1.
abbrev pub IsDial : ℕ → ℕ → Dial → Type 0
IsDial heads width Dial.foreign = ⊥
IsDial heads width (Dial.tensor d) =
    (d.shape ≡ heads ∷ width ∷ []) × (d.any_below_zero ≡ false) × (d.any_from_one ≡ false)

-- A dial for each width.
abbrev pub AreDials : ℕ → List ℕ → List Dial → Type 0
AreDials heads [] [] = Unit
AreDials heads [] (d ∷ ds) = ⊥
AreDials heads (w ∷ ws) [] = ⊥
AreDials heads (w ∷ ws) (d ∷ ds) = IsDial heads w d × AreDials heads ws ds

of_two : (s : List ℕ) → length s ≡ 2 → (a : ℕ) × (b : ℕ) × (s ≡ a ∷ b ∷ [])
of_two [] h = absurd (omega arith)
of_two (a ∷ []) h = absurd (omega arith)
of_two (a ∷ b ∷ []) h = (a, b, refl)
of_two (a ∷ b ∷ c ∷ s) h = absurd (omega arith)

-- A tensor that passes the loop, with what is left of it.
check_dials-tensor :
    (o : Option ℕ) (d : DialFacts) (ds : List Dial)
    → check_dials o (Dial.tensor d ∷ ds) ≡ ok tt
    → (length d.shape ≡ 2)
      × (other_heads o (get_or d.shape 0 0) ≡ false)
      × (d.any_below_zero ≡ false)
      × (d.any_from_one ≡ false)
      × (check_dials (some (heads_after o (get_or d.shape 0 0))) ds ≡ ok tt)
unfolding check_dials
check_dials-tensor o d ds h =
    (ground (arith, h), ground (arith, h), ground (arith, h), ground (arith, h), ground (arith, h))

-- The two loops let in dials of one number of heads and of the widths alone.
passed-AreDials :
    (heads : ℕ) (widths : List ℕ) (dials : List Dial)
    → length dials ≡ length widths
    → check_dials (some heads) dials ≡ ok tt
    → check_dial_widths dials widths ≡ ok tt
    → AreDials heads widths dials
unfolding check_dial_widths dial_width heads_after other_heads last_extent
passed-AreDials heads [] [] n h k = tt
passed-AreDials heads [] (d ∷ ds) n h k = absurd (omega arith)
passed-AreDials heads (w ∷ ws) [] n h k = absurd (omega arith)
passed-AreDials heads (w ∷ ws) (Dial.foreign ∷ ds) n h k = cc
passed-AreDials heads (w ∷ ws) (Dial.tensor d ∷ ds) n h k =
    let (two, same, below, from_one, later) = check_dials-tensor (some heads) d ds h in
    let (a, b, shaped) = of_two d.shape two in
    let is_heads : a ≡ heads = ground (arith, same, ap (λ s. get_or s 0 0) shaped) in
    let widthed : (refuse_if (not (b == w)) value_error >> check_dial_widths ds ws) ≡ ok tt =
      subst
        (λ s.
          (last_extent s >>= λ m. refuse_if (not (m == w)) value_error >> check_dial_widths ds ws)
          ≡ ok tt)
        shaped k in
    let is_width : b ≡ w = ground (arith, widthed) in
    (
      (shaped ∙ (λ i. is_heads i ∷ is_width i ∷ []), below, from_one),
      passed-AreDials heads ws ds (omega (arith, n)) later (ground (arith, widthed)),
    )

-- The first dial sets the number of heads.
heads_of :
    (d : Dial) (ds : List Dial)
    → check_dials none (d ∷ ds) ≡ ok tt
    → (heads : ℕ) × (check_dials (some heads) (d ∷ ds) ≡ ok tt)
unfolding check_dials heads_after other_heads
heads_of Dial.foreign ds h = cc
heads_of (Dial.tensor d) ds h = (get_or d.shape 0 0, ground (arith, h))

AreDials-passed :
    (o : Option ℕ) (heads : ℕ) (widths : List ℕ) (dials : List Dial)
    → other_heads o heads ≡ false
    → AreDials heads widths dials
    → (length dials ≡ length widths)
      × (check_dials o dials ≡ ok tt)
      × (check_dial_widths dials widths ≡ ok tt)
unfolding check_dials check_dial_widths dial_width heads_after other_heads last_extent
AreDials-passed o heads [] [] u p = (refl, refl, refl)
AreDials-passed o heads [] (d ∷ ds) u p = absurd p
AreDials-passed o heads (w ∷ ws) [] u p = absurd p
AreDials-passed o heads (w ∷ ws) (Dial.foreign ∷ ds) u p = absurd p.0
AreDials-passed o heads (w ∷ ws) (Dial.tensor d ∷ ds) u ((shaped, below, from_one), p) =
    let (n, h, k) = AreDials-passed (some (heads_after o heads)) heads ws ds (kept o u) p in
    (ap suc n, rw (shaped, below, from_one) (ground (arith, u, h)), rw shaped (ground (arith, k)))
  where
    kept :
        (o : Option ℕ)
        → other_heads o heads ≡ false
        → other_heads (some (heads_after o heads)) heads ≡ false
    kept none e = ground arith
    kept (some m) e = ground (arith, e)

length-widths : (levels : List LevelRouting) → length (map width_of levels) ≡ length levels
length-widths [] = refl
length-widths (level ∷ levels) = ap suc (length-widths levels)

validate_against_iff :
    (dials : List Dial) (levels : List LevelRouting)
    → All IsConstructed levels
    → (validate_against dials levels ≡ ok tt) ↔ (
        (length dials ≡ length (map width_of levels))
        × (check_dial_widths dials (map width_of levels) ≡ ok tt))
unfolding validate_against
validate_against_iff dials levels c = rw (unnormalized_from-none 0 levels c) (
  λ h.
      let many : length dials ≡ length levels = ground (arith, h) in
      (many ∙ sym (length-widths levels), ground (arith, h)),
  λ (many, h).
      let same : length dials ≡ length levels = many ∙ length-widths levels in
      ground (arith, h, same),
)

-- Over levels that were constructed, a decay is constructed and accepted exactly when it has a dial
-- at least, and a dial for each level: a tensor of shape [heads, width of the level], with one
-- number of heads for all, of which no entry compares below 0 or at least 1 (a NaN compares neither
-- way). The refusal of an unnormalized write side never fires.
pub decay_accepted_iff :
    (dials : List Dial) (levels : List LevelRouting)
    → All IsConstructed levels
    → ((leaf_mass_decay dials ≡ ok dials) × (validate_against dials levels ≡ ok tt))
      ↔ ((0 < length dials) × ((heads : ℕ) × AreDials heads (map width_of levels) dials))
unfolding leaf_mass_decay other_heads
decay_accepted_iff [] levels c = (λ h. cc (h.0), λ h. absurd (omega (arith, h.0)))
decay_accepted_iff (d ∷ ds) levels c =
    (λ h. (omega arith, forward h.0 h.1), λ h. backward h.1.0 h.1.1)
  where
    first_passed : leaf_mass_decay (d ∷ ds) ≡ ok (d ∷ ds) → check_dials none (d ∷ ds) ≡ ok tt
    first_passed h = elim (Result-cases (check_dials none (d ∷ ds))) [
      | inl (u, e) ↦ e
      | inr (x, e) ↦ absurd (ground (arith, h, e))
    ]

    forward :
        leaf_mass_decay (d ∷ ds) ≡ ok (d ∷ ds)
        → validate_against (d ∷ ds) levels ≡ ok tt
        → (heads : ℕ) × AreDials heads (map width_of levels) (d ∷ ds)
    forward h k =
        let (heads, passed) = heads_of d ds (first_passed h) in
        let (many, widthed) = (validate_against_iff (d ∷ ds) levels c).0 k in
        (heads, passed-AreDials heads (map width_of levels) (d ∷ ds) many passed widthed)

    backward :
        (heads : ℕ)
        → AreDials heads (map width_of levels) (d ∷ ds)
        → (leaf_mass_decay (d ∷ ds) ≡ ok (d ∷ ds)) × (validate_against (d ∷ ds) levels ≡ ok tt)
    backward heads p =
        let (n, h, k) = AreDials-passed none heads (map width_of levels) (d ∷ ds) refl p in
        (rw h (ground arith), (validate_against_iff (d ∷ ds) levels c).1 (n, k))
