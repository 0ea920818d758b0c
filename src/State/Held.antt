-- ===== src/State/Held.antt =====
-- The arena of a state: what a plan and a new arena leave of it.
use rola.Prelude.{
  >>=-returns, Bool, List, Option, false, none, ok, prod, refl, some, true, type_error, ℕ, ◌*◌, ◌∙◌,
  ◌≡◌,
}
use mathlib.Core.Path.{subst}
use rola.Arena.{Arena, Bitmap}
use rola.Arena.Create.{page_arena}
use rola.Arena.Created.{IsSane, page_arena-IsValid, page_arena-keying, atom_keying-eq}
use rola.Arena.Plan.{plan_exact-IsValid, plan_exact-keying}
use rola.Arena.Reset.{reset_keeps}
use rola.State.Carried.{
  Driver, Shape, CarriedArena, RolaState, arena_options, new_arena, present_or, state_keying,
}
use rola.State.Entry.{plan_optional}
use rola.State.Invariant.{IsSaneDriver, IsSaneSlack, IsCarried}

module _ {ℓ} {P : Type ℓ} (zeros : P) where
  pub plan_optional-IsCarried :
      (sh : Shape) (c : CarriedArena P) (bitmap : Option Bitmap) (fresh : Bool)
      → IsCarried zeros sh c
      → IsCarried zeros sh (record c { pages = (plan_optional zeros bitmap fresh c.pages).1 })
  unfolding plan_optional
  plan_optional-IsCarried sh c (some bitmap) fresh k = record {
    valid = plan_exact-IsValid zeros bitmap fresh c.pages k.valid;
    same_keying = plan_exact-keying zeros bitmap fresh c.pages k.valid ∙ k.same_keying;
    same_widths = k.same_widths;
  }
  plan_optional-IsCarried sh c none false k = k
  plan_optional-IsCarried sh c none true k =
      let (a', e, valid, same) = reset_keeps zeros c.pages k.valid in
      rw e
        (record { valid = valid; same_keying = same ∙ k.same_keying; same_widths = k.same_widths })

module _ {ℓ κ} {P : Type ℓ} {Q : Type κ} (zeros unset : P) where
  pub new_arena-IsCarried :
      (driver : Driver) (s : RolaState P Q) (sh : Shape) (widths : List ℕ) (bc : ℕ)
      → IsSaneDriver driver
      → IsSaneSlack s.pool_slack
      → s.shape ≡ some sh
      → prod widths ≡ sh.n
      → (c : CarriedArena P) → new_arena zeros unset driver widths bc s ≡ ok c
      → IsCarried zeros sh c
  unfolding new_arena arena_options state_keying present_or
  new_arena-IsCarried driver s sh widths bc sane slack e whole =
      >>=-returns {Q = IsCarried zeros sh} (state_keying s) (λ keying e1.
        >>=-returns {Q = IsCarried zeros sh} (present_or type_error s.device) (λ device e2.
          >>=-returns {Q = IsCarried zeros sh}
            (page_arena zeros unset (arena_options driver widths bc keying device s.pool_slack))
            (λ pages e3 c built.
              let options_sane : IsSane
                  (arena_options driver widths bc keying device s.pool_slack) =
                record {
                  granule_pos = (sane device).0;
                  served = (sane device).1;
                  fraction = slack;
                } in
              let (keyed, w) = page_arena-keying zeros unset _ pages options_sane e3 in
              let (is, w') =
                atom_keying-eq sh.n sh.cols (sh.batch * sh.heads) keying (rw e at e1) in
              subst (IsCarried zeros sh) (λ i. made_eq pages c built i)
                (record {
                  valid = (page_arena-IsValid zeros unset _ pages options_sane e3).0;
                  same_keying = keyed ∙ rw is (rw whole refl);
                  same_widths = whole;
                }))))
    where
      made_eq :
          (pages : Arena P) (c : CarriedArena P)
          → ok (record { widths = widths; bc = bc; pages = pages }) ≡ ok c
          → record { widths = widths; bc = bc; pages = pages } ≡ c
      made_eq pages c built = cc
