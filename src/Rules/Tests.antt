-- ===== src/Rules/Tests.antt =====
-- The run-table rule at a concrete call.
use rola.Prelude.{Option, arith, is_some, none, some, true, ℕ, ◌↔◌, ◌≡◌}
use rola.Rules.{run_table, bit}
use rola.Rules.RunTable.{Reason, run_table_iff}

abbrev no_plane : Option ℕ
no_plane = none

abbrev plane : Option ℕ
plane = some 7

run_table_iff_example :
    (bit (run_table no_plane plane no_plane) 3 ≡ true)
    ↔ Reason (is_some no_plane) (is_some plane) (is_some no_plane) 3
run_table_iff_example = run_table_iff no_plane plane no_plane 3 (omega arith)
