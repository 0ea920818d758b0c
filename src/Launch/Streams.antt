-- ===== src/Launch/Streams.antt =====
-- `derive_stream_count` against what it promises.
use rola.Prelude.{ℕ, ◌*◌, ◌/◌, ◌<◌, ◌≡◌, ◌≤◌}

-- What the loop finds: the largest halving of `s` that fits, or 0 where not even one stream does.
pub data Found (per_stream residency : ℕ) : ℕ → ℕ → Type 0 where
  refused : (s : ℕ) → s ≡ 0 → Found per_stream residency s 0
  fits : (s : ℕ) → 0 < s → s * per_stream ≤ residency → Found per_stream residency s s
  halves :
      (s count : ℕ)
      → 0 < s
      → residency < s * per_stream
      → Found per_stream residency (s / 2) count
      → Found per_stream residency s count
