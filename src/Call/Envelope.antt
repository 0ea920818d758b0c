-- ===== src/Call/Envelope.antt =====
-- When `require_envelope` lets a call pass.
use rola.Prelude.{
  >>=-eq-ok, All, Bool, List, Option, ap, false, is_some, length, map, none, ok, ok_injective, refl,
  some, true, ℕ, ◌&&◌, ◌>>=◌, ◌↔◌, ◌∙◌, ◌∷◌, ◌≡◌, ◌≢◌,
}
use rola.Rules.{Row, Refusal, training_envelope, envelope}
use rola.Rules.Envelope.{IsBuilt, arm_iff, is_uniform_iff, arm_envelope_iff, training_envelope_iff}
use rola.Routing.{LevelRouting, width_of}
use rola.Routing.Constructed.{IsConstructed, unratified_from-none}
use rola.Routing.Decay.{Dial}
use rola.Call.{arm_refusal, envelope_refusal, refuse_for, require_envelope}

refuse_for_iff : (r : Option Refusal) → (refuse_for r ≡ ok tt) ↔ (r ≡ none)
unfolding refuse_for
refuse_for_iff none = (λ h. refl, λ h. refl)
refuse_for_iff (some r) = (λ h. cc, λ h. cc)

-- What a call needs to run here: no gradient beside a state, a CUDA device, values of 64 columns, no
-- decay, and levels of one width for which an arm is built.
pub record RunsHere (manifest : List Row) (level : LevelRouting) (levels : List LevelRouting)
    (cuda : Bool) (d_v : ℕ) (decays grad stateful : Bool) : Type 0 where
  pub stateless : (grad && stateful) ≡ false
  pub on_cuda : cuda ≡ true
  pub columns : d_v ≡ 64
  pub no_decay : decays ≡ false
  pub uniform : All (λ v. v ≡ width_of level) (map width_of levels)
  pub built : IsBuilt (length (width_of level ∷ map width_of levels)) (width_of level) manifest

module _ (manifest : List Row) (level : LevelRouting) (levels : List LevelRouting)
    (decay : Option (List Dial)) (d_v : ℕ) where
  -- The second test passes where the device and the arm are as they must be.
  envelope_refusal_iff :
      (cuda : Bool)
      → All IsConstructed (level ∷ levels)
      → (envelope_refusal manifest (level ∷ levels) cuda d_v decay ≡ ok none) ↔ (
          (cuda ≡ true)
          × (d_v ≡ 64)
          × (is_some decay ≡ false)
          × All (λ v. v ≡ width_of level) (map width_of levels)
          × IsBuilt (length (width_of level ∷ map width_of levels)) (width_of level) manifest)
  unfolding envelope_refusal arm_refusal envelope
  envelope_refusal_iff false p = (
    λ h. absurd (refused (rw (unratified_from-none 0 (level ∷ levels) p) at h)),
    λ h. absurd (wrong h.0),
  )
    where
      refused : {r : Refusal} → ok (some r) ≢ ok none
      refused h = cc

      wrong : false ≢ true
      wrong h = cc
  envelope_refusal_iff true p =
      let (a, found, is_built) = arm_iff (width_of level) (map width_of levels) manifest in
      let fits = arm_envelope_iff (width_of level ∷ map width_of levels) d_v decay a in
      let same = is_uniform_iff (width_of level) (map width_of levels) in
      rw (unratified_from-none 0 (level ∷ levels) p, found)
        (
          λ h.
              let (w, d, u, b) = fits.0 (ok_injective _ none h) in
              (refl, w, d, same.0 u, is_built.0 b),
          λ (c, w, d, u, b). ap ok (fits.1 (w, d, same.1 u, is_built.1 b)),
        )

  -- Over constructed levels, one at least, `require_envelope` passes exactly the calls that have no
  -- gradient beside a state, a CUDA device, values of 64 columns, no decay, and levels of one width
  -- for which the manifest has an arm.
  pub require_envelope_iff {ℓ} :
      {S : Type ℓ} (cuda grad : Bool) (state : Option S)
      → All IsConstructed (level ∷ levels)
      → (require_envelope manifest (level ∷ levels) cuda d_v decay grad state ≡ ok tt)
        ↔ RunsHere manifest level levels cuda d_v (is_some decay) grad (is_some state)
  unfolding require_envelope
  require_envelope_iff cuda grad state p = (
    λ h.
        let (u, stateless, later) =
          >>=-eq-ok (refuse_for (training_envelope grad state))
            (λ done. envelope_refusal manifest (level ∷ levels) cuda d_v decay >>= refuse_for) h in
        let (reason, found, quiet) =
          >>=-eq-ok (envelope_refusal manifest (level ∷ levels) cuda d_v decay) refuse_for later in
        let none_found = (refuse_for_iff reason).0 quiet in
        let (c, w, d, v, b) = (envelope_refusal_iff cuda p).0 (found ∙ ap ok none_found) in
        record {
          stateless =
              (training_envelope_iff grad state).0
                ((refuse_for_iff (training_envelope grad state)).0 stateless);
          on_cuda = c;
          columns = w;
          no_decay = d;
          uniform = v;
          built = b;
        },
    λ r.
        rw
          (
            (training_envelope_iff grad state).1 r.stateless,
            (envelope_refusal_iff cuda p).1 (r.on_cuda, r.columns, r.no_decay, r.uniform, r.built),
            (refuse_for_iff none).1 refl,
          )
          refl,
  )
