-- ===== src/Launch/Tests.antt =====
-- A row of the launch table, and a stream count.
use rola.Prelude.{ok, refl, ◌≡◌}
use rola.Launch.{launch_row, row_of_cc}

-- The row of compute capability 8.6 is one CTA of eight warps.
launch_row-860 : launch_row 860 ≡ ok (record { cc = 860; ctas_per_sm = 1; warps_per_cta = 8 })
unfolding launch_row row_of_cc
launch_row-860 = refl
