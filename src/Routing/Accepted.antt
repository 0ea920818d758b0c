-- ===== src/Routing/Accepted.antt =====
-- When a `RouteDescriptor` is accepted.
use rola.Prelude.{
  >>=-eq-ok, Bool, List, Result, [], ap, arith, false, get_or, if◌then◌else◌, length, not, ok, refl,
  refuse_if, suc, sum, sym, true, value_error, ℕ, ◌+◌, ◌-◌, ◌/◌, ◌==◌, ◌>>◌, ◌↔◌, ◌∙◌, ◌∷◌, ◌≡◌,
}
use rola.Padding.{tuple_eq}
use rola.Routing.Packed.{offsets_from, last}
use rola.Routing.Sides.{last-offsets_from}
use rola.Routing.Descriptor.{
  RouteDescriptor, radix_strides, support_offsets_from, stamp_of, route_tiles, check_ranks,
  check_counts, check_slices, check_support, check_values, check_words, route_descriptor,
}
use rola.Routing.Metadata.{
  seq_iff, refuse_if_iff, tuple_eq_iff, check_ranks_iff, check_counts_iff, check_slices_iff,
  sparse_width, check_support-refuses, check_support-admits,
}
use rola.Routing.Canonical.{
  values_facts, words_facts, IsCanonical, check_values_iff, check_words_iff, small_wide, wide_part,
  small_part,
}

-- The last four checks, of the columns that are expected.
check_rest : RouteDescriptor → ℕ → Result (Unit {0})
check_rest d expected = do
  refuse_if (not (tuple_eq d.radix_strides (radix_strides d.level_widths))) value_error
  check_values d.read_values d.write_values (route_tiles d.token_count) (last d.level_offsets)
  check_words d.read_values d.support_words (route_tiles d.token_count) expected
  refuse_if
      (not
        (tuple_eq d.topology_stamp (stamp_of d.level_widths d.radix_strides d.support_side_flags)))
      value_error

accepted-IsCanonical : (d : RouteDescriptor) → route_descriptor d ≡ ok tt → IsCanonical d
unfolding route_descriptor check_rest route_tiles
accepted-IsCanonical d h =
    let (ranks, h1) = (seq_iff (check_ranks d) _).0 h in
    let (counts, h2) = (seq_iff (check_counts d) _).0 h1 in
    let (slices, h3) = (seq_iff (check_slices d.level_offsets d.level_widths) _).0 h2 in
    let (expected, support, h4) =
      >>=-eq-ok (check_support 0 d.support_offsets d.level_widths d.support_side_flags)
        (check_rest d) h3 in
    let (strides, h5) =
      (seq_iff
          (refuse_if (not (tuple_eq d.radix_strides (radix_strides d.level_widths))) value_error)
          _).0
        h4 in
    let (values, h6) =
      (seq_iff
          (check_values d.read_values d.write_values (route_tiles d.token_count)
            (last d.level_offsets))
          _).0
        h5 in
    let (words, stamp) =
      (seq_iff (check_words d.read_values d.support_words (route_tiles d.token_count) expected) _).0
        h6 in
    let c = (check_counts_iff d).0 counts in
    let (wide, offsets) = (check_slices_iff d.level_offsets d.level_widths c.offsets).0 slices in
    let (flags, supports, total) =
      check_support-refuses 0 d.support_offsets d.level_widths d.support_side_flags expected
        c.supports c.flags support in
    let (reads, writes) = (check_values_iff d.read_values d.write_values _ _).0 values in
    record {
      batch_heads = get_or d.read_values.shape 0 0;
      device = d.read_values.device;
      some_level = c.some_level;
      depth = c.depth;
      widths = small_wide d.level_widths wide c.small;
      flags = flags;
      flag_count = c.flags;
      offsets = offsets;
      supports = supports;
      strides = (tuple_eq_iff _ _).0 (positive _ ((refuse_if_iff _).0 strides));
      stamp = (tuple_eq_iff _ _).0 (positive _ ((refuse_if_iff _).0 stamp));
      reads = reads ∙ (λ i.
          values_facts (get_or d.read_values.shape 0 0) (tiles i)
            ((ap last offsets ∙ last-offsets_from 0 d.level_widths ∙ zero-plus (sum d.level_widths))
              i)
            d.read_values.device);
      writes = writes;
      words = (check_words_iff d.read_values d.support_words _ _).0 words ∙ (λ i.
          words_facts (get_or d.read_values.shape 0 0) (tiles i)
            ((total ∙ zero-plus (sparse_width d.level_widths d.support_side_flags)) i)
            d.read_values.device);
    }
  where
    positive : (b : Bool) → not b ≡ false → b ≡ true
    positive true e = refl
    positive false e = cc

    zero-plus : (n : ℕ) → 0 + n ≡ n
    zero-plus n = omega arith

    tiles : (d.token_count + 32 - 1) / 32 ≡ (d.token_count + 31) / 32
    tiles = omega arith

length-offsets_from : (o : ℕ) (ws : List ℕ) → length (offsets_from o ws) ≡ length ws + 1
unfolding offsets_from
length-offsets_from o [] = refl
length-offsets_from o (w ∷ ws) = omega (arith, length-offsets_from (o + w) ws)

length-radix_strides : (ws : List ℕ) → length (radix_strides ws) ≡ length ws
unfolding radix_strides
length-radix_strides [] = refl
length-radix_strides (w ∷ ws) = ap suc (length-radix_strides ws)

length-support_offsets_from :
    (n : ℕ) (ws fs : List ℕ)
    → length fs ≡ length ws
    → length (support_offsets_from n ws fs) ≡ length ws
unfolding support_offsets_from
length-support_offsets_from n [] fs l = refl
length-support_offsets_from n (w ∷ ws) [] l = absurd (omega arith)
length-support_offsets_from n (w ∷ ws) (f ∷ fs) l =
    ap suc (length-support_offsets_from (if f == 0 then n else n + w) ws fs (omega arith))

IsCanonical-accepted : (d : RouteDescriptor) → IsCanonical d → route_descriptor d ≡ ok tt
unfolding route_descriptor route_tiles
IsCanonical-accepted d c = rw (ranks, counts, slices, support, strides, values, words, stamp)
  where
    reads_shape :
        d.read_values.shape
        ≡ (values_facts c.batch_heads
            ((d.token_count + 31) / 32)
            (sum d.level_widths)
            c.device).shape
    reads_shape = ap (λ t. t.shape) c.reads

    ranks : check_ranks d ≡ ok tt
    ranks = (check_ranks_iff d).1 (
      ap length reads_shape,
      ap (λ t. length t.shape) c.writes ∙ ap length reads_shape,
      ap (λ t. length t.shape) c.words,
    )

    counts : check_counts d ≡ ok tt
    counts = (check_counts_iff d).1 record {
      some_level = c.some_level;
      depth = c.depth;
      small = small_part d.level_widths c.widths;
      offsets = ap length c.offsets ∙ length-offsets_from 0 d.level_widths;
      supports =
          ap length c.supports
          ∙ length-support_offsets_from 0 d.level_widths d.support_side_flags c.flag_count;
      strides = ap length c.strides ∙ length-radix_strides d.level_widths;
      flags = c.flag_count;
    }

    slices : check_slices d.level_offsets d.level_widths ≡ ok tt
    slices =
        (check_slices_iff d.level_offsets d.level_widths
            (ap length c.offsets ∙ length-offsets_from 0 d.level_widths)).1
          (wide_part d.level_widths c.widths, c.offsets)

    zero-plus : (n : ℕ) → 0 + n ≡ n
    zero-plus n = omega arith

    support :
        check_support 0 d.support_offsets d.level_widths d.support_side_flags
        ≡ ok (sparse_width d.level_widths d.support_side_flags)
    support =
        ap (λ o. check_support 0 o d.level_widths d.support_side_flags) c.supports
        ∙ check_support-admits 0 d.level_widths d.support_side_flags c.flags c.flag_count
        ∙ ap ok (zero-plus (sparse_width d.level_widths d.support_side_flags))

    strides : tuple_eq d.radix_strides (radix_strides d.level_widths) ≡ true
    strides = (tuple_eq_iff d.radix_strides (radix_strides d.level_widths)).1 c.strides

    stamp :
        tuple_eq d.topology_stamp (stamp_of d.level_widths d.radix_strides d.support_side_flags)
        ≡ true
    stamp =
        (tuple_eq_iff d.topology_stamp
            (stamp_of d.level_widths d.radix_strides d.support_side_flags)).1
          c.stamp

    heads : c.batch_heads ≡ get_or d.read_values.shape 0 0
    heads = sym (ap (λ t. get_or t.shape 0 0) c.reads)

    device : c.device ≡ d.read_values.device
    device = sym (ap (λ t. t.device) c.reads)

    tiles : (d.token_count + 31) / 32 ≡ (d.token_count + 32 - 1) / 32
    tiles = omega arith

    width : sum d.level_widths ≡ last d.level_offsets
    width =
        sym
          (ap last c.offsets ∙ last-offsets_from 0 d.level_widths ∙ zero-plus (sum d.level_widths))

    values :
        check_values d.read_values d.write_values
          ((d.token_count + 32 - 1) / 32)
          (last d.level_offsets)
        ≡ ok tt
    values =
        (check_values_iff d.read_values d.write_values ((d.token_count + 32 - 1) / 32)
            (last d.level_offsets)).1
          (c.reads ∙ (λ i. values_facts (heads i) (tiles i) (width i) (device i)), c.writes)

    words :
        check_words d.read_values d.support_words
          ((d.token_count + 32 - 1) / 32)
          (sparse_width d.level_widths d.support_side_flags)
        ≡ ok tt
    words =
        (check_words_iff d.read_values d.support_words ((d.token_count + 32 - 1) / 32)
            (sparse_width d.level_widths d.support_side_flags)).1
          (c.words ∙ (λ i.
            words_facts (heads i) (tiles i) (sparse_width d.level_widths d.support_side_flags)
              (device i)))

-- A descriptor is accepted exactly when it is the descriptor of its widths and flags: one to four
-- levels of 2 to 256 digits, flags of the two sides, offsets, support offsets, strides and stamp as
-- a plan computes them, and values and support words of the shapes that follow, contiguous, of
-- their types and on one device.
pub route_descriptor_iff : (d : RouteDescriptor) → (route_descriptor d ≡ ok tt) ↔ IsCanonical d
route_descriptor_iff d = (accepted-IsCanonical d, IsCanonical-accepted d)
