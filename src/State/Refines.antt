-- ===== src/State/Refines.antt =====
-- A call on a state that holds an arena, seen from above.
use mathlib.Core.Path.{subst}
use rola.Prelude.{
  >>=-eq-ok, Bool, List, Option, Result, [], ap, arith, false, get_or, if-keeps, none, not, ok,
  ok_injective, raised, refl, some, suc, sym, zero, ℕ, ◌%◌, ◌*◌, ◌<◌, ◌==◌, ◌∙◌, ◌∷◌, ◌≡◌,
}
use rola.Prelude.Methods.{then_run-eq-ok}
use rola.Keying.Bits.{bit_and_one}
use rola.Keying.{AtomKeying, logical_atoms}
use rola.Arena.{Bitmap, plan_exact}
use rola.Arena.Invariant.{IsValid}
use rola.Arena.View.{view, admit_view, plan_exact_refines}
use rola.State.{StateFormat, Routes, format_of}
use rola.State.Carried.{
  Driver, CarriedArena, RolaState, KernelEntry, bound, bind, bind_or_agree, write_bitmap,
  written_atoms, reshaped, state_keying,
}
use rola.State.Entry.{plan_optional, settled, continue_arena, enter_by, enter, kernel_entry}
use rola.State.Invariant.{IsSound}
use rola.State.Sound.{of_arena}

-- The written bit of an atom's byte is its lowest.
written_bit :
    (bits : List ℕ) (i : ℕ) → get_or (written_atoms bits) i false ≡ (get_or bits i 0 % 2 == 1)
unfolding written_atoms
written_bit [] i = refl
written_bit (b ∷ bits) zero =
    ap (λ low. not (low == 0)) (bit_and_one b) ∙ parity (b % 2) (omega arith)
  where
    parity : (r : ℕ) → r < 2 → not (r == 0) ≡ (r == 1)
    parity r lt = ground arith
written_bit (b ∷ bits) (suc i) = written_bit bits i

module _ {ℓ κ} {P : Type ℓ} {Q : Type κ} where
  settled_ok :
      {t : RolaState P Q} (r : Result (Unit {0})) (entry got : KernelEntry P Q)
      (after before : RolaState P Q)
      → settled r entry after before ≡ (ok got, t)
      → (r ≡ ok tt) × (t ≡ after)
  unfolding settled
  settled_ok (ok u) entry got after before run = (refl, cc)
  settled_ok (raised x) entry got after before run = cc

  write_bitmap-bits :
      (bits : List ℕ) (s : RolaState P Q) (bitmap : Option Bitmap)
      → write_bitmap (some bits) s ≡ ok bitmap
      → (b : Bitmap) × (bitmap ≡ some b) × (b.bits ≡ written_atoms bits)
  unfolding write_bitmap reshaped
  write_bitmap-bits bits s bitmap run =
      let (keying, r1, r2) = >>=-eq-ok (state_keying s) _ run in
      let (b, r3, r4) = >>=-eq-ok (reshaped keying (written_atoms bits)) _ r2 in
      (b, sym (ok_injective (some b) bitmap r4), of_reshaped keying b r3)
    where
      of_reshaped :
          (keying : AtomKeying) (b : Bitmap)
          → reshaped keying (written_atoms bits) ≡ ok b
          → b.bits ≡ written_atoms bits
      of_reshaped keying b r = ground arith

module _ {ℓ} {P : Type ℓ} (zeros : P) where
  seen_bytes :
      (bits : List ℕ) (b : Bitmap) (c c' : CarriedArena P)
      → IsValid zeros c.pages
      → b.bits ≡ written_atoms bits
      → plan_exact zeros b false c.pages ≡ (ok tt, c'.pages)
      → (i : ℕ) → i < logical_atoms c.pages.keying
      → view c'.pages i ≡ admit_view zeros (get_or bits i 0 % 2 == 1) (view c.pages i)
  seen_bytes bits b c c' v same planned i lt =
      plan_exact_refines zeros b c.pages c'.pages i v planned lt
      ∙ ap (λ bs. admit_view zeros (get_or bs i false) (view c.pages i)) same
      ∙ ap (λ asked. admit_view zeros asked (view c.pages i)) (written_bit bits i)

module _ {ℓ κ} {P : Type ℓ} {Q : Type κ} (zeros unset : P) (driver : Driver) where
  enter_by_continues :
      (arena : Option (CarriedArena P)) (plane : Option Q) (paging : Bool) (routes : Routes)
      (bc : ℕ) (bitmap : Bitmap) (s t : RolaState P Q) (c : CarriedArena P)
      (entry : KernelEntry P Q)
      → arena ≡ some c
      → enter_by zeros unset driver arena plane paging routes bc (some bitmap) s ≡ (ok entry, t)
      → (c' : CarriedArena P) × (t.arena ≡ some c')
        × (plan_exact zeros bitmap false c.pages ≡ (ok tt, c'.pages))
  unfolding enter_by continue_arena plan_optional
  enter_by_continues none plane paging routes bc bitmap s t c entry a run = cc
  enter_by_continues (some d) plane paging routes bc bitmap s t c entry a run =
      let (granted, left) = settled_ok (plan_exact zeros bitmap false d.pages).0 _ entry _ _ run in
      (
        record d { pages = (plan_exact zeros bitmap false d.pages).1 },
        ap (λ u. u.arena) left,
        subst
            (λ pages.
              plan_exact zeros bitmap false pages
              ≡ (ok tt, (plan_exact zeros bitmap false d.pages).1))
            (same_pages a) (λ i. (granted i, (plan_exact zeros bitmap false d.pages).1)),
      )
    where
      same_pages : some d ≡ some c → d.pages ≡ c.pages
      same_pages e = cc

  -- A call that returns, on a sound state that holds an arena, has at each atom the effect of
  -- `admit_view` for the lowest, the written, bit of the atom's byte: what was held stays, with its
  -- page, what is written besides starts from zeros, and a byte without that bit admits nothing.
  pub kernel_entry_refines :
      (routes : Routes) (bits : List ℕ) (d_v : ℕ) (paging : Bool) (bc : ℕ) (s t : RolaState P Q)
      (c : CarriedArena P) (entry : KernelEntry P Q)
      → IsSound zeros s
      → s.arena ≡ some c
      → kernel_entry zeros unset driver routes (some bits) d_v paging bc s ≡ (ok entry, t)
      → (c' : CarriedArena P) × (t.arena ≡ some c')
        × ((i : ℕ)
            → i < logical_atoms c.pages.keying
            → view c'.pages i ≡ admit_view zeros (get_or bits i 0 % 2 == 1) (view c.pages i))
  unfolding kernel_entry bind_or_agree bind enter
  kernel_entry_refines routes bits d_v paging bc s t c entry v a run =
      let (f, r1, s1) =
        then_run-eq-ok (format_of routes d_v (routes.batch * routes.heads), s) _ run in
      let (u, r2, s2) = then_run-eq-ok (bind_or_agree routes d_v paging f s) _ s1 in
      let (bitmap, r3, s3) =
        then_run-eq-ok
          (
            write_bitmap (some bits) (bind_or_agree routes d_v paging f s).1,
            (bind_or_agree routes d_v paging f s).1,
          )
          _ s2 in
      let (b, is, same) =
        write_bitmap-bits bits (bind_or_agree routes d_v paging f s).1 bitmap r3 in
      let now : RolaState P Q = (bind_or_agree routes d_v paging f s).1 in
      let (c', e, planned) =
        enter_by_continues now.arena now.plane now.paging routes bc b now t c entry (kept f ∙ a)
          (sym (ap (λ m. enter zeros unset driver routes bc m now) is) ∙ s3) in
      let (sh, x, y, k) = of_arena zeros s c v a in
      (c', e, λ i lt. seen_bytes zeros bits b c c' k.valid same planned i lt)
    where
      kept : (f : StateFormat) → (bind_or_agree routes d_v paging f s).1.arena ≡ s.arena
      kept f =
          if-keeps (λ (out : Result (Unit {0}) × RolaState P Q). out.1.arena ≡ s.arena) (bound s)
            (λ old. refl) (λ new. refl)
