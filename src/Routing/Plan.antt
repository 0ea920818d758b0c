-- ===== src/Routing/Plan.antt =====
-- The descriptor that a plan fills: the end of `production_routing_factors`, of
-- rola/routing/entmax/production.py, whose tensors are parameters.
use rola.Prelude.{
  All, Bool, List, Result-cases, [], ap, arith, false, if◌then◌else◌, inl, inr, length, ok, refl,
  suc, sum, true, ℕ, ◌+◌, ◌/◌, ◌<◌, ◌∷◌, ◌≡◌, ◌≤◌,
}
use rola.Padding.{validate_routing_shape}
use rola.Routing.{LevelRouting, Duty}
use rola.Routing.Constructed.{IsConstructed, constructed-HasRow}
use rola.Routing.Packed.{branches, any_narrow, resolved_routing, level_offsets}
use rola.Routing.Descriptor.{
  TensorFacts, RouteDescriptor, radix_strides, level_can_zero, support_side_flags,
  support_offsets_from, stamp_of, route_descriptor,
}
use rola.Routing.Metadata.{validated-shape, sparse_width}
use rola.Routing.Canonical.{values_facts, words_facts, small_wide}
use rola.Routing.Accepted.{route_descriptor_iff}

-- The arguments of `RouteDescriptor`, from the plan's properties.
unfoldable pub plan_descriptor :
    List LevelRouting → List ℕ → TensorFacts → TensorFacts → TensorFacts → ℕ → ℕ → RouteDescriptor
unfolding level_offsets branches radix_strides support_offsets_from stamp_of
plan_descriptor levels flags reads writes words origin tokens = record {
  read_values = reads;
  write_values = writes;
  support_words = words;
  level_offsets = level_offsets levels;
  support_offsets = support_offsets_from 0 (branches levels) flags;
  level_widths = branches levels;
  radix_strides = radix_strides (branches levels);
  support_side_flags = flags;
  token_origin = origin;
  token_count = tokens;
  topology_stamp = stamp_of (branches levels) (radix_strides (branches levels)) flags;
}

any_narrow-false : (widths : List ℕ) → any_narrow widths ≡ false → All (λ w. 2 ≤ w) widths
unfolding any_narrow
any_narrow-false [] h = tt
any_narrow-false (w ∷ widths) h = (ground arith, any_narrow-false widths (ground arith))

resolved-bounds :
    (levels : List LevelRouting)
    → resolved_routing levels ≡ ok levels
    → (0 < length (branches levels))
      × (length (branches levels) ≤ 4)
      × All (λ w. (2 ≤ w) × (w ≤ 256)) (branches levels)
unfolding resolved_routing
resolved-bounds levels h = elim (Result-cases (validate_routing_shape (branches levels))) [
  | inl (shape, e) ↦
      let v = validated-shape (branches levels) shape e in
      (
        v.0,
        v.1,
        small_wide (branches levels) (any_narrow-false (branches levels) (ground arith)) v.2,
      )
  | inr (x, e) ↦ absurd (ground arith)
]

-- What the flags of a plan are: one for each level, of the two sides.
AreFlags : ℕ → List ℕ → Type 0
AreFlags count flags = All (λ f. f ≤ 3) flags × (length flags ≡ count)

flag_small : (r w : Bool) → (if r then 1 else 0) + (if w then 2 else 0) ≤ 3
flag_small true true = omega arith
flag_small true false = omega arith
flag_small false true = omega arith
flag_small false false = omega arith

level_can_zero_total :
    (level : LevelRouting) (duty : Duty)
    → IsConstructed level
    → (b : Bool) × (level_can_zero level duty ≡ ok b)
unfolding level_can_zero
level_can_zero_total (LevelRouting.union w alpha) duty c = (true, refl)
level_can_zero_total (LevelRouting.independent w r s) duty c =
    let row = constructed-HasRow (LevelRouting.independent w r s) duty c in
    (row.row.exact_zeros, rw row.found)
level_can_zero_total (LevelRouting.tied w op) duty c =
    let row = constructed-HasRow (LevelRouting.tied w op) duty c in
    (row.row.exact_zeros, rw row.found)
level_can_zero_total (LevelRouting.foreign w) duty c = (true, refl)

support_side_flags_total :
    (levels : List LevelRouting)
    → All IsConstructed levels
    → (flags : List ℕ) × (support_side_flags levels ≡ ok flags)
      × AreFlags (length (branches levels)) flags
unfolding support_side_flags branches AreFlags
support_side_flags_total [] c = ([], refl, (tt, refl))
support_side_flags_total (level ∷ levels) c =
    let (r, e) = level_can_zero_total level Duty.read c.0 in
    let (w, e') = level_can_zero_total level Duty.write c.0 in
    let (flags, e2, (small, count)) = support_side_flags_total levels c.1 in
    (
      ((if r then 1 else 0) + (if w then 2 else 0)) ∷ flags,
      rw (e, e', e2),
      ((flag_small r w, small), ap suc count),
    )

-- A plan of constructed levels that make a `ResolvedRouting` has flags, and fills a descriptor that
-- is accepted, from any token on, for values and support words of the shapes of its columns.
pub plan_descriptor_accepted :
    (levels : List LevelRouting) (reads : TensorFacts) (words : List ℕ → TensorFacts)
    (batch_heads device origin tokens : ℕ)
    → All IsConstructed levels
    → resolved_routing levels ≡ ok levels
    → reads ≡ values_facts batch_heads ((tokens + 31) / 32) (sum (branches levels)) device
    → ((flags : List ℕ)
        → words flags
          ≡ words_facts batch_heads
              ((tokens + 31) / 32)
              (sparse_width (branches levels) flags)
              device)
    → (flags : List ℕ) × (support_side_flags levels ≡ ok flags)
      × (route_descriptor (plan_descriptor levels flags reads reads (words flags) origin tokens)
          ≡ ok tt)
unfolding plan_descriptor AreFlags
plan_descriptor_accepted levels reads words batch_heads device origin tokens c resolved r w =
    let (some_level, depth, wide) = resolved-bounds levels resolved in
    let (flags, e, (small, count)) = support_side_flags_total levels c in
    (
      flags,
      e,
      (route_descriptor_iff
            (plan_descriptor levels flags reads reads (words flags) origin tokens)).1
          record {
            batch_heads = batch_heads;
            device = device;
            some_level = some_level;
            depth = depth;
            widths = wide;
            flags = small;
            flag_count = count;
            offsets = refl;
            supports = refl;
            strides = refl;
            stamp = refl;
            reads = r;
            writes = refl;
            words = w flags;
          },
    )
