-- ===== src/State/Invariant.antt =====
-- What holds of a carried state between calls.
use rola.Prelude.{Option, none, prod, some, true, ℕ, ◌%◌, ◌*◌, ◌+◌, ◌<◌, ◌≡◌, ◌≤◌}
use rola.Keying.{AtomKeying}
use rola.Arena.Create.{Slack}
use rola.Arena.Invariant.{IsValid}
use rola.State.{StateFormat}
use rola.State.Format.{IsFormat}
use rola.State.Carried.{Driver, Shape, CarriedArena, RolaState, built_strategy}

-- A driver's granule is positive, and the driver maps what it is asked for; a fraction of a count
-- is at most the count.
abbrev pub IsSaneDriver : Driver → Type 0
IsSaneDriver driver =
    (device : ℕ)
    → (0 < (driver.probe device).granularity) × ((n : ℕ) → (driver.probe device).maps n ≡ true)

abbrev pub IsSaneSlack : Slack → Type 0
IsSaneSlack slack = slack.in_range ≡ true → (n : ℕ) → slack.ceil_of n ≤ n

-- The keying that a shape stands for.
abbrev pub keying_of : Shape → AtomKeying
keying_of shape = record { n = shape.n; cols = shape.cols; bh = shape.batch * shape.heads }

-- A shape and a format of one call.
pub record IsBinding (shape : Shape) (format : StateFormat) : Type 0 where
  pub lawful : IsFormat format
  pub capacity : shape.n ≡ prod format.widths
  pub whole : shape.n % 16 ≡ 0
  pub value_width : shape.cols ≡ format.dv + 1

-- Shape, device and format are bound together.
pub data BoundTogether (shape : Option Shape) (device : Option ℕ) (format : Option StateFormat)
    : Type 0 where
  unbound : shape ≡ none → device ≡ none → format ≡ none → BoundTogether shape device format
  bound_to :
      (sh : Shape) (d : ℕ) (f : StateFormat)
      → shape ≡ some sh
      → device ≡ some d
      → format ≡ some f
      → IsBinding sh f
      → BoundTogether shape device format

-- An arena of this shape, valid.
pub record IsCarried {ℓ} {P : Type ℓ} (zeros : P) (shape : Shape) (carried : CarriedArena P)
    : Type ℓ where
  pub valid : IsValid zeros carried.pages
  pub same_keying : carried.pages.keying ≡ keying_of shape
  pub same_widths : prod carried.widths ≡ shape.n

module _ {ℓ κ} {P : Type ℓ} {Q : Type κ} (zeros : P) where
  -- What a state holds: nothing while it is unbound, then at most one of the two backings.
  pub data OneBacking (shape : Option Shape) (arena : Option (CarriedArena P)) (plane : Option Q)
      : Type (ℓ ⊔ κ) where
    nothing_held : arena ≡ none → plane ≡ none → OneBacking shape arena plane
    paged_only :
        (sh : Shape) (c : CarriedArena P)
        → shape ≡ some sh
        → arena ≡ some c
        → plane ≡ none
        → IsCarried zeros sh c
        → OneBacking shape arena plane
    dense_only :
        (sh : Shape) (q : Q)
        → shape ≡ some sh
        → arena ≡ none
        → plane ≡ some q
        → OneBacking shape arena plane

  pub record IsSound (s : RolaState P Q) : Type (ℓ ⊔ κ) where
    pub strategy : s.strategy ≡ built_strategy
    pub slack : IsSaneSlack s.pool_slack
    pub together : BoundTogether s.shape s.device s.format
    pub backing : OneBacking s.shape s.arena s.plane
