-- ===== src/Arena/Pool.antt =====
-- The slack pool's buffers: which slots a batch-head has not spent.
use rola.Prelude.{
  List, [], arith, drop, length, replicate, suc, sum, zero, ℕ, ◌*◌, ◌+◌, ◌∷◌, ◌≡◌, ◌≤◌,
}
use rola.Tensor.{arange}
use rola.Tensor.Laws.{hits, hits-append, count, count-append, count-arange}
use rola.Arena.{pool_rows, refill_rows}

-- How many unspent positions of the pool name slot `s`: a batch-head has spent the first of its row.
unfoldable pub pool_count : ℕ → List (List ℕ) → List ℕ → ℕ
pool_count s [] cursor = 0
pool_count s (row ∷ rows) [] = 0
pool_count s (row ∷ rows) (c ∷ cursor) = count s (drop c row) + pool_count s rows cursor

-- A fresh pool names each slot of its run once.
pub pool_count-pool_rows :
    (s first width rows : ℕ)
    → pool_count s (pool_rows first width rows) (replicate rows 0) ≡ hits first (rows * width) s
unfolding pool_count pool_rows
pool_count-pool_rows s first width zero = ground arith
pool_count-pool_rows s first width (suc rows) =
    let total : suc rows * width ≡ width + rows * width = omega arith in
    rw (total, hits-append first width (rows * width) s)
      (omega (arith, count-arange first width s, pool_count-pool_rows s (first + width) width rows))

-- A refill adds the slots of its run, and takes no unspent one away.
pub pool_count-refill_rows :
    (s fresh : ℕ) (spent : List ℕ) (rows : List (List ℕ))
    → pool_count s (refill_rows fresh spent rows) (replicate (length spent) 0)
      ≤ pool_count s rows spent + hits fresh (sum spent) s
unfolding pool_count refill_rows
pool_count-refill_rows s fresh [] [] = ground arith
pool_count-refill_rows s fresh [] (row ∷ rows) = ground arith
pool_count-refill_rows s fresh (n ∷ spent) [] = ground arith
pool_count-refill_rows s fresh (n ∷ spent) (row ∷ rows) = omega (
  arith,
  count-append s (arange fresh n) (drop n row),
  count-arange fresh n s,
  hits-append fresh n (sum spent) s,
  pool_count-refill_rows s (fresh + n) spent rows,
)
