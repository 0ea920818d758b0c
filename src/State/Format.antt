-- ===== src/State/Format.antt =====
-- The format descriptor: what one that is accepted says, and what `check` compares.
use text.Mathlib.Text.{◌==◌ as str_eq}
use text.Mathlib.TextEquality.{eq_iff}
use mathlib.Core.Path.{subst}
use rola.Prelude.{
  >>=-eq-ok, All, Bool, Exception, List, Result, [], ap, arith, false, length, not, ok, prod, refl,
  refuse_if, sym, true, value_error, ℕ, ◌%◌, ◌&&◌, ◌<◌, ◌==◌, ◌>>◌, ◌^◌, ◌↔◌, ◌∙◌, ◌∷◌, ◌≡◌,
}
use rola.State.{
  StateFormat, state_format, capacity, check_widths, widths_eq, check, canonical_order,
  page_rectangle_bits,
}
use rola.State.Widths.{IsLawful, check_widths-IsLawful, IsLawful-check_widths, prod-whole_pages}

-- The law of a descriptor.
pub record IsFormat (f : StateFormat) : Type 0 where
  pub levels : length f.widths ≡ f.depth
  pub lawful : All IsLawful f.widths
  pub order : f.order ≡ canonical_order
  pub page : f.page_bits ≡ page_rectangle_bits
  pub pairs : f.dv % 2 ≡ 0

-- A test that was passed, on the way to what returned.
pub passed {ℓ} :
    {A : Type ℓ} (bad : Bool) (e : Exception) {rest : Result A} {y : A}
    → (refuse_if bad e >> rest) ≡ ok y
    → (bad ≡ false) × (rest ≡ ok y)
passed true e h = cc
passed false e h = (refl, h)

pub unnegated : (b : Bool) → not b ≡ false → b ≡ true
unnegated true h = refl
unnegated false h = cc

same_nat : {a b : ℕ} → not (a == b) ≡ false → a ≡ b
same_nat h = ground arith

-- What `state_format` returns is its argument, which is lawful and page aligned.
pub state_format-IsFormat :
    (f g : StateFormat) → state_format f ≡ ok g → (g ≡ f) × IsFormat f × (capacity f % 16 ≡ 0)
unfolding state_format
state_format-IsFormat f g run =
    let (e1, r1) = passed (not (length f.widths == f.depth)) value_error run in
    let (u, e2, r2) = >>=-eq-ok (check_widths f.widths) _ r1 in
    let (e3, r3) = passed (not (str_eq f.order canonical_order)) value_error r2 in
    let (e4, r4) = passed (not (f.page_bits == page_rectangle_bits)) value_error r3 in
    let (e5, r5) = passed (not (f.dv % 2 == 0)) value_error r4 in
    let (e6, r6) = passed (not (capacity f % 2 ^ f.page_bits == 0)) value_error r5 in
    (
      cc,
      record {
        levels = same_nat e1;
        lawful = check_widths-IsLawful f.widths e2;
        order = (eq_iff f.order canonical_order).0 (unnegated (str_eq f.order canonical_order) e3);
        page = same_nat e4;
        pairs = same_nat e5;
      },
      sym (ap (λ b. capacity f % 2 ^ b) (same_nat e4)) ∙ same_nat e6,
    )

aligned : (f : StateFormat) → 0 < f.depth → IsFormat f → capacity f % 16 ≡ 0
unfolding capacity
aligned f some_level l = from f.widths l.levels l.lawful
  where
    from : (widths : List ℕ) → length widths ≡ f.depth → All IsLawful widths → prod widths % 16 ≡ 0
    from [] e h = absurd (omega (arith, e))
    from (width ∷ widths) e h = prod-whole_pages width widths h

-- With a level at least, a descriptor is accepted, unchanged, exactly when it is lawful: its last
-- test, for a ragged capacity, then refuses nothing that the others let pass.
pub state_format_iff : (f : StateFormat) → 0 < f.depth → (state_format f ≡ ok f) ↔ IsFormat f
unfolding state_format
state_format_iff f some_level = (
  λ run. (state_format-IsFormat f f run).1,
  λ l.
      rw (l.levels, IsLawful-check_widths f.widths l.lawful, l.order, l.page)
        (ground (arith, l.pairs, aligned f some_level l)),
)

widths_eq_iff : (left right : List ℕ) → (widths_eq left right ≡ true) ↔ (left ≡ right)
unfolding widths_eq
widths_eq_iff [] [] = (λ h. refl, λ h. refl)
widths_eq_iff [] (b ∷ bs) = (λ h. cc, λ h. cc)
widths_eq_iff (a ∷ left) [] = (λ h. cc, λ h. cc)
widths_eq_iff (a ∷ left) (b ∷ bs) = (
  λ h. λ i. split_head h i ∷ (widths_eq_iff left bs).0 (split_tail h) i,
  λ h. joined (cc) ((widths_eq_iff left bs).1 (cc)),
)
  where
    split_head : (a == b && widths_eq left bs) ≡ true → a ≡ b
    split_head h = ground arith

    split_tail : (a == b && widths_eq left bs) ≡ true → widths_eq left bs ≡ true
    split_tail h = ground arith

    joined : a ≡ b → widths_eq left bs ≡ true → (a == b && widths_eq left bs) ≡ true
    joined e h = ground arith

-- `check` passes exactly the descriptor that the state was bound with.
pub check_iff : (mine theirs : StateFormat) → (check mine theirs ≡ ok tt) ↔ (mine ≡ theirs)
unfolding check
check_iff mine theirs = (
  λ run.
      let (e1, r1) = passed (not (mine.depth == theirs.depth)) value_error run in
      let (e2, r2) = passed (not (widths_eq mine.widths theirs.widths)) value_error r1 in
      let (e3, r3) = passed (not (str_eq mine.order theirs.order)) value_error r2 in
      let (e4, r4) = passed (not (mine.page_bits == theirs.page_bits)) value_error r3 in
      let (e5, r5) = passed (not (mine.dv == theirs.dv)) value_error r4 in
      let (e6, r6) = passed (not (str_eq mine.dtype theirs.dtype)) value_error r5 in
      λ i. record {
        depth = same_nat e1 i;
        widths = (widths_eq_iff mine.widths theirs.widths).0 (unnegated _ e2) i;
        order = (eq_iff mine.order theirs.order).0 (unnegated _ e3) i;
        page_bits = same_nat e4 i;
        dv = same_nat e5 i;
        dtype = (eq_iff mine.dtype theirs.dtype).0 (unnegated _ e6) i;
        ids = same_nat (last r6) i;
      },
  λ e. subst (λ f. check mine f ≡ ok tt) e itself,
)
  where
    last :
        refuse_if (not (mine.ids == theirs.ids)) value_error ≡ ok tt
        → not (mine.ids == theirs.ids) ≡ false
    last h = ground arith

    itself : check mine mine ≡ ok tt
    itself =
        rw
          (
            (widths_eq_iff mine.widths mine.widths).1 refl,
            (eq_iff mine.order mine.order).1 refl,
            (eq_iff mine.dtype mine.dtype).1 refl,
          )
          (ground arith)
