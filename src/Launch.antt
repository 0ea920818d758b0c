-- ===== src/Launch.antt =====
-- rola/engine/constants.py: the launch table and the shape of a launch.
pub mod Streams
mod Tests
use rola.Prelude.{
  Bool, List, Result, [], if◌then◌else◌, leb, ok, raised, suc, value_error, zero,
  zero_division_error, ℕ, ◌*◌, ◌/◌, ◌==◌, ◌>>=◌, ◌||◌, ◌∷◌,
}

-- `WARPS_PER_SM`, `WARPS_PER_CTA_SHIPPED` and `WARPS_PER_CTA_DIAGNOSTIC`
abbrev pub warps_per_sm : ℕ
warps_per_sm = 8

abbrev pub warps_per_cta_shipped : ℕ
warps_per_cta_shipped = 8

abbrev pub warps_per_cta_diagnostic : ℕ
warps_per_cta_diagnostic = 4

-- `_LEAVES_PER_SM_NUMERATOR`
abbrev pub leaves_per_sm_numerator : ℕ
leaves_per_sm_numerator = 65536 * 1 / 4

unfoldable pub is_warps_per_cta : ℕ → Bool
is_warps_per_cta warps = warps == warps_per_cta_shipped || warps == warps_per_cta_diagnostic

-- `leaves_per_warp`
unfoldable pub leaves_per_warp : ℕ → Result ℕ
leaves_per_warp zero = raised zero_division_error
leaves_per_warp (suc d) = ok (leaves_per_sm_numerator / suc d / warps_per_sm)

-- `box_leaves`
unfoldable pub box_leaves : ℕ → ℕ → Result ℕ
unfolding leaves_per_warp
box_leaves dv warps = leaves_per_warp dv >>= λ leaves. ok (leaves * warps)

pub record LaunchRow : Type 0 where
  pub cc : ℕ
  pub ctas_per_sm : ℕ
  pub warps_per_cta : ℕ

-- `LAUNCH_TABLE`
abbrev pub launch_table : List LaunchRow
launch_table =
    record { cc = 800; ctas_per_sm = 1; warps_per_cta = warps_per_cta_shipped }
    ∷ record { cc = 860; ctas_per_sm = 1; warps_per_cta = warps_per_cta_shipped }
    ∷ record { cc = 870; ctas_per_sm = 1; warps_per_cta = warps_per_cta_shipped }
    ∷ record { cc = 890; ctas_per_sm = 1; warps_per_cta = warps_per_cta_shipped }
    ∷ record { cc = 900; ctas_per_sm = 1; warps_per_cta = warps_per_cta_shipped }
    ∷ []

-- `_LAUNCH_TABLE_BY_CC[cc]`; no two rows of the table have one `cc`.
unfoldable pub row_of_cc : ℕ → List LaunchRow → Result LaunchRow
row_of_cc cc [] = raised value_error
row_of_cc cc (row ∷ rows) = let rest = row_of_cc cc rows in if row.cc == cc then ok row else rest

-- `launch_row`
unfoldable pub launch_row : ℕ → Result LaunchRow
unfolding row_of_cc
launch_row cc = row_of_cc cc launch_table

-- The `while` loop of `derive_stream_count` from `s` on; `fuel` rounds are left.
unfoldable pub streams_from : ℕ → ℕ → ℕ → ℕ → ℕ
streams_from zero per_stream residency s = 0
streams_from (suc fuel) per_stream residency s =
    let rest = streams_from fuel per_stream residency (s / 2) in
    if s == 0 then 0 else if leb (s * per_stream) residency then s else rest

-- `derive_stream_count`; the loop halves, so that the first count bounds its rounds.
unfoldable pub derive_stream_count : ℕ → ℕ → ℕ → ℕ
unfolding streams_from
derive_stream_count per_stream residency warps = streams_from warps per_stream residency warps
