-- ===== src/Rules/RunTable.antt =====
-- engine/rules/run_table.py: the word against the reasons for which a block has to run.
use rola.Prelude.{Bool, Option, arith, false, is_some, refl, suc, true, zero, ℕ, ◌<◌, ◌↔◌, ◌≡◌}
use rola.Rules.{bit, must_run, table_from, run_table}

-- Why a block with liveness byte `v` cannot be skipped, over the three presence facts.
pub data Reason (carries_in stores_out paged : Bool) (v : ℕ) : Type 0 where
  reads_own_write : bit v 0 ≡ true → bit v 1 ≡ true → Reason carries_in stores_out paged v
  reads_dense_state :
      bit v 0 ≡ true → carries_in ≡ true → paged ≡ false → Reason carries_in stores_out paged v
  reads_resident_page :
      bit v 0 ≡ true
      → carries_in ≡ true
      → paged ≡ true
      → bit v 2 ≡ true
      → Reason carries_in stores_out paged v
  stores_write : stores_out ≡ true → bit v 1 ≡ true → Reason carries_in stores_out paged v

must_run_iff : (c s p : Bool) (v : ℕ) → (must_run c s p v ≡ true) ↔ Reason c s p v
unfolding must_run
must_run_iff c s p v = (forward, backward)
  where
    forward : must_run c s p v ≡ true → Reason c s p v
    forward h = grind (arith, reads_own_write, reads_dense_state, reads_resident_page, stores_write)

    backward : Reason c s p v → must_run c s p v ≡ true
    backward (reads_own_write r w) = ground arith
    backward (reads_dense_state r i d) = ground arith
    backward (reads_resident_page r i g m) = ground arith
    backward (stores_write o w) = ground arith

-- The eight liveness bytes, one by one.
octet : (Q : ℕ → Type 0) → Q 0 × Q 1 × Q 2 × Q 3 × Q 4 × Q 5 × Q 6 × Q 7 → (v : ℕ) → v < 8 → Q v
octet Q h zero lt = h.0
octet Q h (suc zero) lt = h.1
octet Q h (suc (suc zero)) lt = h.2
octet Q h (suc (suc (suc zero))) lt = h.3
octet Q h (suc (suc (suc (suc zero)))) lt = h.4
octet Q h (suc (suc (suc (suc (suc zero))))) lt = h.5
octet Q h (suc (suc (suc (suc (suc (suc zero)))))) lt = h.6
octet Q h (suc (suc (suc (suc (suc (suc (suc zero))))))) lt = h.7
octet Q h (suc (suc (suc (suc (suc (suc (suc (suc v)))))))) lt = absurd (omega arith)

-- The word agrees with the predicate at byte `v`.
abbrev Agrees : Bool → Bool → Bool → ℕ → Type 0
Agrees c s p v = bit (table_from c s p 0 8 0) v ≡ must_run c s p v

table_bit : (c s p : Bool) (v : ℕ) → v < 8 → Agrees c s p v
unfolding table_from must_run
table_bit true true true =
    octet (Agrees true true true) (refl, refl, refl, refl, refl, refl, refl, refl)
table_bit true true false =
    octet (Agrees true true false) (refl, refl, refl, refl, refl, refl, refl, refl)
table_bit true false true =
    octet (Agrees true false true) (refl, refl, refl, refl, refl, refl, refl, refl)
table_bit true false false =
    octet (Agrees true false false) (refl, refl, refl, refl, refl, refl, refl, refl)
table_bit false true true =
    octet (Agrees false true true) (refl, refl, refl, refl, refl, refl, refl, refl)
table_bit false true false =
    octet (Agrees false true false) (refl, refl, refl, refl, refl, refl, refl, refl)
table_bit false false true =
    octet (Agrees false false true) (refl, refl, refl, refl, refl, refl, refl, refl)
table_bit false false false =
    octet (Agrees false false false) (refl, refl, refl, refl, refl, refl, refl, refl)

-- The bit of a liveness byte below 8 is set in the planned word exactly when the block has a reason
-- to run: a read of this call's own write, a read of a dense carried state, a read of a resident
-- page of a paged one, or a write that an exit plane stores.
pub run_table_iff {ℓ} :
    {A : Type ℓ} (state_in state_out page_table : Option A) (v : ℕ)
    → v < 8
    → (bit (run_table state_in state_out page_table) v ≡ true)
      ↔ Reason (is_some state_in) (is_some state_out) (is_some page_table) v
unfolding run_table
run_table_iff i o t v lt =
    rw (table_bit (is_some i) (is_some o) (is_some t) v lt)
      (must_run_iff (is_some i) (is_some o) (is_some t) v)
