-- ===== src/State/Decode.antt =====
-- The entry of a decode step: which states it takes.
use rola.Prelude.{
  >>=-eq-ok, Option, attribute_error, is_some, none, not, ok, refl, runtime_error, some, true,
  type_error, ◌*◌, ◌>>=◌, ◌||◌, ◌↔◌, ◌≡◌,
}
use rola.State.{StateFormat, Routes, format_of, check}
use rola.State.Format.{check_iff, passed, unnegated}
use rola.State.Carried.{
  Shape, CarriedArena, RolaState, DecodeEntry, paged_step, dense_step, carries, require_carrying,
  present_or, agree, step_storage, decode_entry,
}

module _ {ℓ κ} {P : Type ℓ} {Q : Type κ} where
  stored :
      (arena : Option (CarriedArena P)) (plane : Option Q)
      → is_some arena || is_some plane ≡ true
      → (entry : DecodeEntry P Q) × (step_storage arena plane ≡ ok entry)
  unfolding step_storage
  stored (some c) plane h = (paged_step c, refl)
  stored none (some q) h = (dense_step q, refl)
  stored none none h = cc

  -- A decode step over a bound state is let in exactly when the state carries something and its
  -- format is the one that the step presents.
  pub decode_entry_iff :
      (routes : Routes) (s : RolaState P Q) (sh : Shape) (f g : StateFormat)
      → s.shape ≡ some sh
      → s.format ≡ some f
      → format_of routes f.dv (sh.batch * sh.heads) ≡ ok g
      → ((entry : DecodeEntry P Q) × (decode_entry routes s ≡ ok entry))
        ↔ ((carries s ≡ true) × (f ≡ g))
  unfolding decode_entry require_carrying carries agree present_or
  decode_entry_iff routes s sh f g shaped named presents = (
    λ step.
        let (full, r1) = passed (not (is_some s.arena || is_some s.plane)) runtime_error step.1 in
        let (agreed, r2) = after r1 in
        (unnegated (is_some s.arena || is_some s.plane) full, (check_iff f g).0 agreed),
    λ both.
        let (entry, e) = stored s.arena s.plane both.0 in
        (entry, rw (both.0, shaped, named, presents, (check_iff f g).1 both.1) e),
  )
    where
      after :
          {y : DecodeEntry P Q}
          → (present_or attribute_error s.format >>= λ mine.
              present_or type_error s.shape >>= λ shape.
              format_of routes mine.dv (shape.batch * shape.heads) >>= λ presented.
              agree presented s >>= λ u. step_storage s.arena s.plane)
            ≡ ok y
          → (check f g ≡ ok tt) × (step_storage s.arena s.plane ≡ ok y)
      after r =
          let (u, e, rest) = >>=-eq-ok (check f g) _ (rw (named, shaped, presents) at r) in
          (e, rest)
