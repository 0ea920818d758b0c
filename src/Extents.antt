-- ===== src/Extents.antt =====
-- rola/ops/paging.py `ExtentAllocator`: a cursor over the slots. Where a run lands is the rule's.
pub mod Take
use rola.Prelude.{Result, if◌then◌else◌, ltb, ok, raised, value_error, ℕ, ◌+◌, ◌>>=◌}
use rola.Rules.{admission}

-- `ExtentAllocator`; `next` is `_next`.
pub record ExtentAllocator : Type 0 where
  pub capacity : ℕ
  pub extent_atoms : ℕ
  pub next : ℕ

unfoldable pub extent_allocator : ℕ → ℕ → Result ExtentAllocator
extent_allocator capacity extent =
    if ltb extent 1
    then raised value_error
    else ok (record { capacity = capacity; extent_atoms = extent; next = 0 })

-- `take` with the rule's answer: the run's first slot, and the cursor past it.
advance : ExtentAllocator → ℕ → ℕ → ℕ × ExtentAllocator
advance al count first = (first, if ltb 0 count then record al { next = first + count } else al)

unfoldable pub take : ExtentAllocator → ℕ → Result (ℕ × ExtentAllocator)
unfolding advance
take al count =
    admission al.next al.capacity al.extent_atoms count >>= λ first. ok (advance al count first)

-- `reset`
unfoldable pub reset : ExtentAllocator → ExtentAllocator
reset al = record al { next = 0 }
