-- ===== src/Rules/Envelope.antt =====
-- engine/rules/arm.py and envelope.py: when no rule refuses a call.
use rola.Prelude.{
  All, Bool, Bool-cases, List, Option, [], arith, false, inl, inr, is_some, length, none, ok, refl,
  sym, true, ℕ, ◌&&◌, ◌==◌, ◌↔◌, ◌∷◌, ◌≡◌,
}
use mathlib.Core.Path.{subst}
use rola.Rules.{
  Arm, Row, arm, pick_bc, built_bcs, is_uniform, arm_envelope, training_envelope, envelope, pin_c,
}

-- The manifest has a row of 32 tokens at this depth and width.
pub data IsBuilt (depth width : ℕ) : List Row → Type 0 where
  here :
      {r : Row} {rows : List Row}
      → r.c ≡ 32
      → r.d ≡ depth
      → r.b ≡ width
      → IsBuilt depth width (r ∷ rows)
  there : {r : Row} {rows : List Row} → IsBuilt depth width rows → IsBuilt depth width (r ∷ rows)

built-IsBuilt :
    (d w : ℕ) (rows : List Row) → is_some (pick_bc (built_bcs d w rows)) ≡ true → IsBuilt d w rows
unfolding pick_bc built_bcs
built-IsBuilt d w [] h = cc
built-IsBuilt d w (r ∷ rows) h = elim (Bool-cases (r.d == d && r.b == w && r.c == pin_c)) [
  | inl fits ↦ IsBuilt.here (ground arith) (ground arith) (ground arith)
  | inr unfit ↦ IsBuilt.there (built-IsBuilt d w rows (rw unfit at h))
]

IsBuilt-built :
    (d w : ℕ) (rows : List Row) → IsBuilt d w rows → is_some (pick_bc (built_bcs d w rows)) ≡ true
unfolding pick_bc built_bcs
IsBuilt-built d w [] b = elim b [ ]
IsBuilt-built d w (r ∷ rows) (here c e f) =
    let fits : (r.d == d && r.b == w && r.c == pin_c) ≡ true = ground arith in rw fits refl
IsBuilt-built d w (r ∷ rows) (there b) = elim (Bool-cases (r.d == d && r.b == w && r.c == pin_c)) [
  | inl fits ↦ rw fits refl
  | inr unfit ↦ rw unfit (IsBuilt-built d w rows b)
]

-- A topology has an arm exactly when it is built.
pub arm_iff :
    (w : ℕ) (ws : List ℕ) (manifest : List Row)
    → (a : Option Arm) × (arm (w ∷ ws) manifest ≡ ok a)
      × ((is_some a ≡ true) ↔ IsBuilt (length (w ∷ ws)) w manifest)
unfolding arm
arm_iff w ws manifest = (
  pick_bc (built_bcs (length (w ∷ ws)) w manifest),
  refl,
  (built-IsBuilt (length (w ∷ ws)) w manifest, IsBuilt-built (length (w ∷ ws)) w manifest),
)

pub is_uniform_iff : (w : ℕ) (ws : List ℕ) → (is_uniform (w ∷ ws) ≡ true) ↔ All (λ v. v ≡ w) ws
unfolding is_uniform
is_uniform_iff w [] = (λ h. tt, λ h. refl)
is_uniform_iff w (v ∷ ws) = (
  λ h.
      let same : v ≡ w = ground arith in
      (same, subst (λ x. All (λ u. u ≡ x) ws) same ((is_uniform_iff v ws).0 (ground (arith, h)))),
  λ h.
      ground (arith, h.0, (is_uniform_iff v ws).1 (subst (λ x. All (λ u. u ≡ x) ws) (sym h.0) h.1)),
)

pub arm_envelope_iff {ℓ} :
    {A : Type ℓ} (widths : List ℕ) (d_v : ℕ) (decay : Option A) (built : Option Arm)
    → (arm_envelope widths d_v decay built ≡ none)
      ↔ ((d_v ≡ 64) × (is_some decay ≡ false) × (is_uniform widths ≡ true) × (is_some built ≡ true))
unfolding arm_envelope
arm_envelope_iff widths d_v decay built = (
  λ h. (ground (arith, h), ground (arith, h), ground (arith, h), ground (arith, h)),
  λ h. ground (arith, h),
)

pub training_envelope_iff {ℓ} :
    {A : Type ℓ} (grad : Bool) (state : Option A)
    → (training_envelope grad state ≡ none) ↔ ((grad && is_some state) ≡ false)
unfolding training_envelope
training_envelope_iff grad state = (λ h. ground (arith, h), λ h. ground (arith, h))

pub envelope_iff {ℓ} :
    (A : Type ℓ) (cuda : Bool) → (envelope {A = A} [] cuda ≡ none) ↔ (cuda ≡ true)
unfolding envelope
envelope_iff A cuda = (λ h. ground (arith, h), λ h. ground (arith, h))
