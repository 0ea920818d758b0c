-- ===== src/Keying/Tests.antt =====
-- A keying of two batch-heads over planes of two columns.
use rola.Prelude.{arith, refl, ◌%◌, ◌≡◌, ℕ}
use rola.Keying.{AtomKeying, address}
use rola.Keying.Address.{address_distinct}

abbrev keying : AtomKeying
keying = record { n = 64; cols = 2; bh = 2 }

abbrev slot : ℕ
slot = 3

abbrev column : ℕ
column = 1

-- Tokens 21 and 5 of one slot are in one row.
address_distinct_example : (slot ≡ slot) × (21 % 16 ≡ 5 % 16) × (column ≡ column)
unfolding address
address_distinct_example =
    address_distinct keying slot slot 21 5 column column (omega arith) (omega arith) refl
