-- ===== src/Arena/Fresh.antt =====
-- `plan_exact` with `fresh`: a call computes as if nothing preceded it.
use rola.Prelude.{
  Option, ap, arith, false, get_elem?, get_or, length, length-replicate, none, ok, some, sym, true,
  ℕ, ◌<◌, ◌∙◌, ◌≡◌,
}
use rola.Keying.{logical_atoms}
use rola.Arena.{Arena, Bitmap, plan_exact, reset, cleared}
use rola.Arena.Table.{is_resident, is_resident-absent, get_elem?-absent}
use rola.Arena.Invariant.{IsValid}
use rola.Arena.Reset.{IsFresh, reset_lem}
use rola.Arena.Residency.{IsAdmitted, plan_exact_continued}

module _ {ℓ} {P : Type ℓ} (zeros : P) where
  -- The arena after a fresh call, atom by atom.
  pub record IsCallScoped (bitmap : Bitmap) (a' : Arena P) : Type ℓ where
    pub residency :
        (i : ℕ)
        → i < logical_atoms a'.keying
        → is_resident a'.page_table i ≡ get_or bitmap.bits i false
    pub zeroed :
        (i s : ℕ)
        → i < logical_atoms a'.keying
        → get_elem? a'.page_table i ≡ some (some s)
        → get_elem? a'.value_base s ≡ some zeros

  plan_exact-reset :
      (bitmap : Bitmap) (a b : Arena P)
      → reset zeros a ≡ (ok tt, b)
      → plan_exact zeros bitmap true a ≡ plan_exact zeros bitmap false b
  unfolding plan_exact
  plan_exact-reset bitmap a b e = rw e

  absent_after :
      (a b : Arena P) (i : ℕ) → IsFresh zeros (cleared a) b → is_resident b.page_table i ≡ false
  unfolding cleared
  absent_after a b i f = rw f.table (is_resident-absent (length a.page_table) i)

  none_after :
      (a b : Arena P) (i : ℕ)
      → IsFresh zeros (cleared a) b
      → i < logical_atoms b.keying
      → get_elem? b.page_table i ≡ some none
  unfolding cleared
  none_after a b i f lt = rw f.table (
      get_elem?-absent (length a.page_table) i (
        omega (
          arith,
          f.valid.sized.rows,
          ap length f.table,
          length-replicate {A = Option ℕ} (length a.page_table) none,
        )))

  -- A fresh admission of a valid arena that returns has mapped exactly the atoms of its bitmap, and
  -- each of them reads as zeros, whatever the arena held before.
  pub plan_exact_fresh :
      (bitmap : Bitmap) (a a' : Arena P)
      → IsValid zeros a
      → plan_exact zeros bitmap true a ≡ (ok tt, a')
      → IsCallScoped bitmap a'
  plan_exact_fresh bitmap a a' v run =
      let (b, e, f) = reset_lem zeros a v in
      scoped b f
        (plan_exact_continued zeros bitmap b a' f.valid (sym (plan_exact-reset bitmap a b e) ∙ run))
    where
      scoped :
          (b : Arena P)
          → IsFresh zeros (cleared a) b
          → IsAdmitted zeros bitmap b a'
          → IsCallScoped bitmap a'
      scoped b f adm = record {
        residency = λ i lt.
            adm.union i (omega (arith, ap logical_atoms adm.same_keying))
            ∙ rw (absent_after a b i f);
        zeroed = λ i s lt h.
            adm.new_zero i s (none_after a b i f (omega (arith, ap logical_atoms adm.same_keying)))
              h;
      }
