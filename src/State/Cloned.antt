-- ===== src/State/Cloned.antt =====
-- `clone`: what it leaves of a sound state.
use Prim.Native.String.{String}
use mathlib.Core.Path.{subst}
use rola.Prelude.{
  >>=-eq-ok, Bool-cases, Option, false, inl, inr, is_some-false, none, ok, ok_injective, refl, some,
  sym, ℕ, ◌∙◌, ◌≡◌,
}
use rola.State.{StateFormat}
use rola.Arena.{Arena}
use rola.Arena.Invariant.{IsValid}
use rola.State.Carried.{Driver, Shape, CarriedArena, RolaState, rola_state, bound, new_arena}
use rola.State.Clone.{adopted, clone_into, clone, copy_arena}
use rola.State.Invariant.{
  IsSaneDriver, IsCarried, BoundTogether, unbound, bound_to, OneBacking, nothing_held, paged_only,
  dense_only, IsSound,
}
use rola.State.Held.{new_arena-IsCarried}
use rola.State.Sound.{of_arena}
use rola.State.Life.{rola_state-IsSound}
use rola.State.Copied.{IsCopyOf, copy_arena_cases}

module _ {ℓ} {P : Type ℓ} (zeros : P) where
  -- An arena is copied, and no arena is none.
  abbrev pub SameArena : Option (CarriedArena P) → Option (CarriedArena P) → Type ℓ
  SameArena none copy = copy ≡ none
  SameArena (some c) copy =
      (c' : CarriedArena P) × (copy ≡ some c') × IsCopyOf zeros c.pages c'.pages

module _ {ℓ κ} {P : Type ℓ} {Q : Type κ} (zeros : P) where
  -- A clone against its source.
  pub record IsCloneOf (s copy : RolaState P Q) : Type (ℓ ⊔ κ) where
    pub sound : IsSound zeros copy
    pub same_shape : copy.shape ≡ s.shape
    pub same_device : copy.device ≡ s.device
    pub same_format : copy.format ≡ s.format
    pub same_plane : copy.plane ≡ s.plane
    pub same_arena : SameArena zeros s.arena copy.arena

module _ {ℓ κ} {P : Type ℓ} {Q : Type κ} (zeros : P) where
  -- An unbound state holds nothing.
  pub empty_of :
      (s : RolaState P Q) → IsSound zeros s → s.shape ≡ none → (s.arena ≡ none) × (s.plane ≡ none)
  empty_of s v h = from v.backing
    where
      from : OneBacking zeros s.shape s.arena s.plane → (s.arena ≡ none) × (s.plane ≡ none)
      from (nothing_held a p) = (a, p)
      from (paged_only sh c b a p k) = cc
      from (dense_only sh q b a p) = cc

module _ {ℓ κ} {P : Type ℓ} {Q : Type κ} (zeros unset : P) (driver : Driver) where
  clone_into-IsCloneOf :
      (arena : Option (CarriedArena P)) (s out : RolaState P Q)
      → IsSaneDriver driver
      → IsSound zeros s
      → IsSound zeros out
      → out.arena ≡ none
      → out.plane ≡ none
      → s.arena ≡ arena
      → (copy : RolaState P Q)
      → clone_into zeros unset driver arena s.plane (adopted s out) ≡ ok copy
      → IsCloneOf zeros s copy
  unfolding clone_into adopted
  clone_into-IsCloneOf none s out sane v w no_arena no_plane a copy run =
      subst (IsCloneOf zeros s) (ok_injective (record (adopted s out) { plane = s.plane }) copy run)
        (record {
          sound = record {
            strategy = w.strategy;
            slack = w.slack;
            together = v.together;
            backing = dense v.backing;
          };
          same_shape = refl;
          same_device = refl;
          same_format = refl;
          same_plane = refl;
          same_arena = subst (λ o. SameArena zeros o out.arena) (sym a) no_arena;
        })
    where
      dense : OneBacking zeros s.shape s.arena s.plane → OneBacking zeros s.shape out.arena s.plane
      dense (nothing_held e p) = nothing_held no_arena p
      dense (dense_only sh q b e p) = dense_only sh q b no_arena p
      dense (paged_only sh c b e p k) = cc
  clone_into-IsCloneOf (some c) s out sane v w no_arena no_plane a copy run =
      let (sh, b, p, k) = of_arena zeros s c v a in
      let (made, r1, r2) =
        >>=-eq-ok (new_arena zeros unset driver c.widths c.bc (adopted s out)) _ run in
      let (pages, r3, r4) = >>=-eq-ok (copy_arena zeros c.pages made.pages) _ r2 in
      let m =
        new_arena-IsCarried zeros unset driver (adopted s out) sh c.widths c.bc sane w.slack b
          k.same_widths made r1 in
      copied_state sh made pages b p k m
        (is_copy made pages k.valid m.valid (m.same_keying ∙ sym k.same_keying) r3) r4
    where
      is_copy :
          (made : CarriedArena P) (pages : Arena P)
          → IsValid zeros c.pages
          → IsValid zeros made.pages
          → made.pages.keying ≡ c.pages.keying
          → copy_arena zeros c.pages made.pages ≡ ok pages
          → IsCopyOf zeros c.pages pages
      is_copy made pages u t e r = elim (copy_arena_cases zeros c.pages made.pages u t e) [
        | inl (pages', r', k) ↦
            subst (IsCopyOf zeros c.pages) (ok_injective pages' pages (sym r' ∙ r)) k
        | inr (x, r', r'') ↦ cc
      ]

      copied_state :
          (sh : Shape) (made : CarriedArena P) (pages : Arena P)
          → s.shape ≡ some sh
          → s.plane ≡ none
          → IsCarried zeros sh c
          → IsCarried zeros sh made
          → IsCopyOf zeros c.pages pages
          → ok (record (adopted s out) { arena = some (record made { pages = pages }) }) ≡ ok copy
          → IsCloneOf zeros s copy
      copied_state sh made pages b p k m i r =
          subst (IsCloneOf zeros s)
            (ok_injective (record (adopted s out) { arena = some (record made { pages = pages }) })
              copy r)
            (record {
              sound = record {
                strategy = w.strategy;
                slack = w.slack;
                together = v.together;
                backing = paged_only sh _ b refl no_plane (record {
                  valid = i.valid;
                  same_keying = i.same_keying ∙ k.same_keying;
                  same_widths = m.same_widths;
                });
              };
              same_shape = refl;
              same_device = refl;
              same_format = refl;
              same_plane = no_plane ∙ sym p;
              same_arena =
                  subst (λ o. SameArena zeros o (some (record made { pages = pages }))) (sym a)
                    (_, refl, i);
            })

  -- A clone that returns, of a sound state, is a sound state with the same shape, device and
  -- format, the same plane or no plane, and an arena of its own whose atoms have the same pages,
  -- where the driver's granules are positive and the driver maps what it is asked for.
  pub clone-IsCloneOf :
      (strategy : Option String) (s copy : RolaState P Q)
      → IsSaneDriver driver
      → IsSound zeros s
      → clone zeros unset driver strategy s ≡ ok copy
      → IsCloneOf zeros s copy
  unfolding clone bound
  clone-IsCloneOf strategy s copy sane v run =
      let (out, r1, r2) =
        >>=-eq-ok
          (rola_state (elim strategy [ none ↦ s.strategy | some other ↦ other ]) s.pool_slack) _
          run in
      let (w, blank, empty) = made out r1 in
      elim (Bool-cases (bound s)) [
        | inl is_bound ↦
            clone_into-IsCloneOf s.arena s out sane v w empty.0 empty.1 refl copy
              (rw is_bound at r2)
        | inr not_bound ↦
            subst (IsCloneOf zeros s) (ok_injective out copy (rw not_bound at r2))
              (of_unbound out w blank empty not_bound)
      ]
    where
      made :
          (out : RolaState P Q)
          → rola_state (elim strategy [ none ↦ s.strategy | some other ↦ other ]) s.pool_slack
            ≡ ok out
          → IsSound zeros out × (out.shape ≡ none) × ((out.arena ≡ none) × (out.plane ≡ none))
      made out r =
          let (w, blank, same) =
            rola_state-IsSound zeros (elim strategy [ none ↦ s.strategy | some other ↦ other ])
              s.pool_slack out v.slack r in
          (w, blank, empty_of zeros out w blank)

      of_unbound :
          (out : RolaState P Q)
          → IsSound zeros out
          → out.shape ≡ none
          → (out.arena ≡ none) × (out.plane ≡ none)
          → bound s ≡ false
          → IsCloneOf zeros s out
      of_unbound out w blank empty not_bound =
          let (a, p) = empty_of zeros s v (unbound_shape not_bound) in
          record {
            sound = w;
            same_shape = blank ∙ sym (unbound_shape not_bound);
            same_device =
                (others w.together blank).0 ∙ sym (others v.together (unbound_shape not_bound)).0;
            same_format =
                (others w.together blank).1 ∙ sym (others v.together (unbound_shape not_bound)).1;
            same_plane = empty.1 ∙ sym p;
            same_arena = subst (λ o. SameArena zeros o out.arena) (sym a) empty.0;
          }
        where
          unbound_shape : bound s ≡ false → s.shape ≡ none
          unbound_shape h = is_some-false s.shape h

          others :
              {sh : Option Shape} {d : Option ℕ} {f : Option StateFormat}
              → BoundTogether sh d f
              → sh ≡ none
              → (d ≡ none) × (f ≡ none)
          others (unbound e1 e2 e3) h = (e2, e3)
          others (bound_to sh d f e1 e2 e3 b) h = cc
