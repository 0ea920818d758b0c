-- ===== src/Liveness/Mask.antt =====
-- The static digit mask of a side: a digit is live exactly when it is below the logical width.
use rola.Prelude.{
  >>=-eq-ok, Bool, List, [], ap, arith, false, get_elem?, get_or, get_or-append_left,
  get_or-append_right, length, ltb, not, ok, ok_injective, refl, refuse_if, some, suc, sum, sym,
  take, value_error, zero, ℕ, ◌++◌, ◌+◌, ◌<◌, ◌==◌, ◌||◌, ◌∙◌, ◌∷◌, ◌≡◌,
}
use rola.Liveness.{
  LivenessLayout, SideStatics, row_base, check_pads, live_digits, mask_digits, side_statics,
}

length-live_digits : (b first width : ℕ) → length (live_digits b first width) ≡ width
unfolding live_digits
length-live_digits b first zero = refl
length-live_digits b first (suc width) = ap suc (length-live_digits b (suc first) width)

live_digit :
    (b first width d : ℕ)
    → d < width
    → get_or (live_digits b first width) d false ≡ ltb (first + d) b
unfolding live_digits
live_digit b first zero d lt = elim lt [ ]
live_digit b first (suc width) zero lt = ap (λ k. ltb k b) {y = first + 0} (omega arith)
live_digit b first (suc width) (suc d) lt =
    live_digit b (suc first) width d (omega arith)
    ∙ ap (λ k. ltb k b) {x = suc first + d} {y = first + suc d} (omega arith)

mask_digit :
    (logical widths : List ℕ) (level digit b width : ℕ)
    → get_elem? logical level ≡ some b
    → get_elem? widths level ≡ some width
    → digit < width
    → get_or (mask_digits logical widths) (sum (take level widths) + digit) false ≡ ltb digit b
unfolding mask_digits
mask_digit [] widths level digit b width h g lt = cc
mask_digit (c ∷ logical) [] level digit b width h g lt = cc
mask_digit (c ∷ logical) (w ∷ widths) zero digit b width h g lt =
    ap (λ i. get_or (live_digits c 0 w ++ mask_digits logical widths) i false) {x = 0 + digit}
      {y = digit} (omega arith)
    ∙ get_or-append_left (live_digits c 0 w) (mask_digits logical widths) digit false
        (omega (arith, length-live_digits c 0 w, the_width g))
    ∙ live_digit c 0 w digit (omega (arith, the_width g))
    ∙ (λ i. ltb (plain i) (the_logical h i))
  where
    the_width : some w ≡ some width → w ≡ width
    the_width e = cc

    the_logical : some c ≡ some b → c ≡ b
    the_logical e = cc

    plain : 0 + digit ≡ digit
    plain = omega arith
mask_digit (c ∷ logical) (w ∷ widths) (suc level) digit b width h g lt =
    ap (λ i. get_or (live_digits c 0 w ++ mask_digits logical widths) i false)
      {x = w + sum (take level widths) + digit}
      {y = length (live_digits c 0 w) + (sum (take level widths) + digit)}
      (omega (arith, length-live_digits c 0 w))
    ∙ get_or-append_right (live_digits c 0 w) (mask_digits logical widths)
        (sum (take level widths) + digit) false
    ∙ mask_digit logical widths level digit b width h g lt

-- The mask of a side that is accepted has, at the row of each digit of each level, whether the digit
-- is below the level's logical width, so that exactly the pad digits are dead.
pub side_statics-mask :
    (l : LivenessLayout) (dense : List Bool) (logical : List ℕ) (s : SideStatics)
    (level digit b width : ℕ)
    → side_statics l dense logical ≡ ok s
    → get_elem? logical level ≡ some b
    → get_elem? l.widths level ≡ some width
    → digit < width
    → get_or s.digit_mask (row_base l level + digit) false ≡ ltb digit b
unfolding side_statics row_base
side_statics-mask l dense logical s level digit b width run h g lt =
    let (u, r1, r2) =
      >>=-eq-ok
        (refuse_if (not (length dense == l.depth) || not (length logical == l.depth)) value_error) _
        run in
    let (t, r3, r4) = >>=-eq-ok (check_pads logical l.widths) _ r2 in
    ap (λ m. get_or m (sum (take level l.widths) + digit) false)
      (sym (ap (λ c. c.digit_mask) (ok_injective (made dense) s r4)))
    ∙ mask_digit logical l.widths level digit b width h g lt
  where
    made : List Bool → SideStatics
    made dense = record { dense_levels = dense; digit_mask = mask_digits logical l.widths }
