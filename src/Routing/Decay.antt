-- ===== src/Routing/Decay.antt =====
-- `LeafMassDecay` of rola/routing/types.py. A dial is known by its shape, and by what the two float
-- comparisons say.
use rola.Prelude.{
  Bool, List, Option, Result, [], attribute_error, false, get_or, if◌then◌else◌, index_error,
  length, map, none, not, ok, raised, refuse_if, some, suc, type_error, value_error, ℕ, ◌==◌, ◌>>=◌,
  ◌>>◌, ◌||◌, ◌∷◌,
}
use rola.Routing.{LevelRouting, Duty, width_of, activation, properties_for}

-- A tensor of `dials`: its shape, and what `torch.any(dial < 0)` and `torch.any(dial >= 1)` say, which
-- are both false of a NaN.
pub record DialFacts : Type 0 where
  pub shape : List ℕ
  pub any_below_zero : Bool
  pub any_from_one : Bool

-- An entry of `dials`: a tensor, or anything else.
pub data Dial : Type 0 where
  foreign : Dial
  tensor : DialFacts → Dial

-- `heads` after a dial of so many, and the test of it.
unfoldable pub heads_after : Option ℕ → ℕ → ℕ
heads_after none n = n
heads_after (some heads) n = heads

unfoldable pub other_heads : Option ℕ → ℕ → Bool
other_heads none n = false
other_heads (some heads) n = not (n == heads)

-- The loop of `LeafMassDecay.__post_init__`; `heads` is None before the first dial.
unfoldable pub check_dials : Option ℕ → List Dial → Result (Unit {0})
unfolding heads_after other_heads
check_dials heads [] = ok tt
check_dials heads (foreign ∷ dials) = raised type_error
check_dials heads (tensor dial ∷ dials) =
    let n = get_or dial.shape 0 0 in
    let rest = check_dials (some (heads_after heads n)) dials in
    if not (length dial.shape == 2)
    then raised value_error
    else if other_heads heads n
    then raised value_error
    else if dial.any_below_zero || dial.any_from_one
    then raised value_error
    else rest

-- `LeafMassDecay`
unfoldable pub leaf_mass_decay : List Dial → Result (List Dial)
unfolding check_dials
leaf_mass_decay dials = do
  refuse_if (length dials == 0) value_error
  check_dials none dials
  ok dials

-- `unnormalized` of `validate_against`, as the levels.
unfoldable pub unnormalized_from : ℕ → List LevelRouting → Result (List ℕ)
unfolding properties_for activation
unnormalized_from i [] = ok []
unnormalized_from i (level ∷ levels) = do
  properties ← properties_for (activation level Duty.write)
  rest ← unnormalized_from (suc i) levels
  ok (if properties.normalized then rest else i ∷ rest)

-- `dial.shape[-1]`
unfoldable pub last_extent : List ℕ → Result ℕ
last_extent [] = raised index_error
last_extent (n ∷ []) = ok n
last_extent (n ∷ m ∷ shape) = last_extent (m ∷ shape)

unfoldable pub dial_width : Dial → Result ℕ
unfolding last_extent
dial_width foreign = raised attribute_error
dial_width (tensor dial) = last_extent dial.shape

-- The loop of `validate_against` over dials and widths, which are as many.
unfoldable pub check_dial_widths : List Dial → List ℕ → Result (Unit {0})
unfolding dial_width
check_dial_widths [] widths = ok tt
check_dial_widths (dial ∷ dials) [] = ok tt
check_dial_widths (dial ∷ dials) (width ∷ widths) = do
  n ← dial_width dial
  refuse_if (not (n == width)) value_error
  check_dial_widths dials widths

-- `LeafMassDecay.validate_against`
unfoldable pub validate_against : List Dial → List LevelRouting → Result (Unit {0})
unfolding unnormalized_from check_dial_widths width_of
validate_against dials levels = do
  unnormalized ← unnormalized_from 0 levels
  refuse_if (not (length unnormalized == 0)) value_error
  refuse_if (not (length dials == length levels)) value_error
  check_dial_widths dials (map width_of levels)
