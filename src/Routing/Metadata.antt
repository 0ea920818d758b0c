-- ===== src/Routing/Metadata.antt =====
-- The checks of `RouteDescriptor`, one by one: each passes exactly on what a plan computes.
use rola.Prelude.{
  ==_iff, All, Bool, Bool-cases, List, Result, Result-cases, [], ap, arith, drop, false, get_or,
  if◌then◌else◌, inl, inr, length, ltb, ok, ok_injective, raised, refl, refuse_if, sym, true,
  value_error, ℕ, ◌&&◌, ◌+◌, ◌<◌, ◌==◌, ◌>>◌, ◌↔◌, ◌∙◌, ◌∷◌, ◌≡◌, ◌≤◌,
}
use rola.Padding.{tuple_eq, validate_routing_shape, check_branches}
use rola.Liveness.Words.{ℤ, pos, negsuc}
use rola.Routing.Packed.{offsets_from}
use rola.Routing.Descriptor.{
  RouteDescriptor, check_ranks, check_counts, any_bad_slice, check_slices, is_offset,
  is_dense_offset, check_support, support_offsets_from,
}

pub seq_iff : (a b : Result (Unit {0})) → ((a >> b) ≡ ok tt) ↔ ((a ≡ ok tt) × (b ≡ ok tt))
seq_iff (ok x) b = (λ h. (refl, h), λ h. h.1)
seq_iff (raised e) b = (λ h. cc, λ h. cc)

pub refuse_if_iff : (b : Bool) → (refuse_if b value_error ≡ ok tt) ↔ (b ≡ false)
refuse_if_iff true = (λ h. cc, λ h. cc)
refuse_if_iff false = (λ h. refl, λ h. refl)

pub tuple_eq_iff : (xs ys : List ℕ) → (tuple_eq xs ys ≡ true) ↔ (xs ≡ ys)
unfolding tuple_eq
tuple_eq_iff [] [] = (λ h. refl, λ h. refl)
tuple_eq_iff [] (y ∷ ys) = (λ h. cc, λ h. cc)
tuple_eq_iff (x ∷ xs) [] = (λ h. cc, λ h. cc)
tuple_eq_iff (x ∷ xs) (y ∷ ys) = (
  λ h. (λ i. same h i ∷ (tuple_eq_iff xs ys).0 (rest h) i),
  λ h. ground (arith, h, (tuple_eq_iff xs ys).1 (cc h)),
)
  where
    same : (x == y && tuple_eq xs ys) ≡ true → x ≡ y
    same h = ground arith

    rest : (x == y && tuple_eq xs ys) ≡ true → tuple_eq xs ys ≡ true
    rest h = ground arith

pub check_ranks_iff :
    (d : RouteDescriptor)
    → (check_ranks d ≡ ok tt) ↔ (
        (length d.read_values.shape ≡ 4)
        × (length d.write_values.shape ≡ 4)
        × (length d.support_words.shape ≡ 3))
unfolding check_ranks
check_ranks_iff d = (λ h. ground arith, λ h. ground arith)

check_branches_iff : (widths : List ℕ) → (check_branches widths ≡ ok tt) ↔ All (λ w. w ≤ 256) widths
unfolding check_branches
check_branches_iff [] = (λ h. tt, λ h. refl)
check_branches_iff (w ∷ widths) = (
  λ h. (ground arith, (check_branches_iff widths).0 (ground arith)),
  λ h. ground (arith, h.0, (check_branches_iff widths).1 h.1),
)

pub validated-shape :
    (widths shape : List ℕ)
    → validate_routing_shape widths ≡ ok shape
    → (0 < length widths) × (length widths ≤ 4) × All (λ w. w ≤ 256) widths
unfolding validate_routing_shape
validated-shape widths shape h =
    (ground arith, ground arith, (check_branches_iff widths).0 (ground arith))

shape-validated :
    (widths : List ℕ)
    → 0 < length widths
    → length widths ≤ 4
    → All (λ w. w ≤ 256) widths
    → validate_routing_shape widths ≡ ok widths
unfolding validate_routing_shape
shape-validated widths some_level le small = ground (arith, (check_branches_iff widths).1 small)

-- What the counts of a descriptor have to be.
pub record IsCounted (d : RouteDescriptor) : Type 0 where
  pub some_level : 0 < length d.level_widths
  pub depth : length d.level_widths ≤ 4
  pub small : All (λ w. w ≤ 256) d.level_widths
  pub offsets : length d.level_offsets ≡ length d.level_widths + 1
  pub supports : length d.support_offsets ≡ length d.level_widths
  pub strides : length d.radix_strides ≡ length d.level_widths
  pub flags : length d.support_side_flags ≡ length d.level_widths

pub check_counts_iff : (d : RouteDescriptor) → (check_counts d ≡ ok tt) ↔ IsCounted d
unfolding check_counts
check_counts_iff d = (
  λ h. elim (Result-cases (validate_routing_shape d.level_widths)) [
    | inl (shape, e) ↦
        let v = validated-shape d.level_widths shape e in
        record {
          some_level = v.0;
          depth = v.1;
          small = v.2;
          offsets = ground arith;
          supports = ground arith;
          strides = ground arith;
          flags = ground arith;
        }
    | inr (x, e) ↦ absurd (ground arith)
  ],
  λ c.
      let v = shape-validated d.level_widths c.some_level c.depth c.small in
      ground (arith, v, c.some_level, c.offsets, c.supports, c.strides, c.flags),
)

offsets_from-head : (o : ℕ) (ws : List ℕ) → get_or (offsets_from o ws) 0 0 ≡ o
unfolding offsets_from
offsets_from-head o [] = refl
offsets_from-head o (w ∷ ws) = refl

pub any_bad_slice_iff :
    (start : ℕ) (offsets widths : List ℕ)
    → length offsets ≡ length widths
    → (any_bad_slice (start ∷ offsets) widths ≡ false)
      ↔ (All (λ w. 2 ≤ w) widths × ((start ∷ offsets) ≡ offsets_from start widths))
unfolding any_bad_slice offsets_from
any_bad_slice_iff start [] [] len = (λ h. (tt, refl), λ h. refl)
any_bad_slice_iff start [] (w ∷ widths) len = absurd (omega arith)
any_bad_slice_iff start (stop ∷ offsets) [] len = absurd (omega arith)
any_bad_slice_iff start (stop ∷ offsets) (w ∷ widths) len = (
  λ h.
      let (wide, rest) =
        (any_bad_slice_iff stop offsets widths (omega (arith, len))).0 (ground arith) in
      let here : stop ≡ start + w = ground arith in
      ((ground arith, wide), ap (◌∷◌ start) (rest ∙ ap (λ s. offsets_from s widths) here)),
  λ h.
      let here : stop ≡ start + w =
        ap (λ xs. get_or xs 1 0) h.1 ∙ offsets_from-head (start + w) widths in
      let rest : (stop ∷ offsets) ≡ offsets_from stop widths =
        ap (drop 1) h.1 ∙ ap (λ s. offsets_from s widths) (sym here) in
      let bad = (any_bad_slice_iff stop offsets widths (omega (arith, len))).1 (h.0.1, rest) in
      ground (arith, bad, here, h.0.0),
)

pub check_slices_iff :
    (offsets widths : List ℕ)
    → length offsets ≡ length widths + 1
    → (check_slices offsets widths ≡ ok tt)
      ↔ (All (λ w. 2 ≤ w) widths × (offsets ≡ offsets_from 0 widths))
unfolding check_slices
check_slices_iff [] widths len = absurd (omega arith)
check_slices_iff (o ∷ offsets) widths len = (
  λ h.
      let first : o ≡ 0 = ground arith in
      let slices = (any_bad_slice_iff o offsets widths (omega (arith, len))).0 (ground arith) in
      (slices.0, slices.1 ∙ ap (λ s. offsets_from s widths) first),
  λ h.
      let first : o ≡ 0 = ap (λ xs. get_or xs 0 0) h.1 ∙ offsets_from-head 0 widths in
      let slices =
        (any_bad_slice_iff o offsets widths (omega (arith, len))).1
          (h.0, h.1 ∙ ap (λ s. offsets_from s widths) (sym first)) in
      ground (arith, first, slices),
)

-- The columns of the sparse levels.
unfoldable pub sparse_width : List ℕ → List ℕ → ℕ
sparse_width (w ∷ widths) (f ∷ flags) = (if f == 0 then 0 else w) + sparse_width widths flags
sparse_width _ _ = 0

dense_offset : (o : ℤ) → is_dense_offset o ≡ true → o ≡ negsuc 0
unfolding is_dense_offset
dense_offset (pos m) h = cc
dense_offset (negsuc m) h = ap negsuc ((==_iff m 0).0 h)

offset_is : (n : ℕ) (o : ℤ) → is_offset n o ≡ true → o ≡ pos n
unfolding is_offset
offset_is n (pos m) h = ap pos ((==_iff m n).0 h)
offset_is n (negsuc m) h = cc

parts :
    (a b : Bool) (r : Result ℕ) (n : ℕ)
    → (if a then raised value_error else if b then r else raised value_error) ≡ ok n
    → (a ≡ false) × (b ≡ true) × (r ≡ ok n)
parts true b r n h = cc
parts false true r n h = (refl, refl, h)
parts false false r n h = cc

pub check_support-refuses :
    (e : ℕ) (offsets : List ℤ) (widths flags : List ℕ) (n : ℕ)
    → length offsets ≡ length widths
    → length flags ≡ length widths
    → check_support e offsets widths flags ≡ ok n
    → All (λ f. f ≤ 3) flags
      × (offsets ≡ support_offsets_from e widths flags)
      × (n ≡ e + sparse_width widths flags)
unfolding check_support support_offsets_from sparse_width
check_support-refuses e [] [] [] n l l' h = (tt, refl, omega (arith, ok_injective e n h))
check_support-refuses e (o ∷ os) (w ∷ ws) (f ∷ fs) n l l' h = elim (Bool-cases (f == 0)) [
  | inl dense ↦
      let (flag, offset, rest) =
        parts (ltb 3 f) (is_dense_offset o) (check_support e os ws fs) n (rw dense at h) in
      let (flags, offsets, total) =
        check_support-refuses e os ws fs n (omega (arith, l)) (omega (arith, l')) rest in
      rw dense
        ((ground arith, flags), (λ i. dense_offset o offset i ∷ offsets i), omega (arith, total))
  | inr sparse ↦
      let (flag, offset, rest) =
        parts (ltb 3 f) (is_offset e o) (check_support (e + w) os ws fs) n (rw sparse at h) in
      let (flags, offsets, total) =
        check_support-refuses (e + w) os ws fs n (omega (arith, l)) (omega (arith, l')) rest in
      rw sparse
        ((ground arith, flags), (λ i. offset_is e o offset i ∷ offsets i), omega (arith, total))
]
check_support-refuses e [] (w ∷ ws) fs n l l' h = absurd (omega arith)
check_support-refuses e (o ∷ os) [] fs n l l' h = absurd (omega arith)
check_support-refuses e [] [] (f ∷ fs) n l l' h = absurd (omega arith)
check_support-refuses e (o ∷ os) (w ∷ ws) [] n l l' h = absurd (omega arith)

pub check_support-admits :
    (e : ℕ) (widths flags : List ℕ)
    → All (λ f. f ≤ 3) flags
    → length flags ≡ length widths
    → check_support e (support_offsets_from e widths flags) widths flags
      ≡ ok (e + sparse_width widths flags)
unfolding check_support support_offsets_from sparse_width
check_support-admits e [] [] p l = ap ok (omega arith)
check_support-admits e (w ∷ ws) [] p l = absurd (omega arith)
check_support-admits e [] (f ∷ fs) p l = absurd (omega arith)
check_support-admits e (w ∷ ws) (f ∷ fs) p l = elim (Bool-cases (f == 0)) [
  | inl dense ↦ rw dense (ground (arith, p.0, check_support-admits e ws fs p.1 (omega (arith, l))))
  | inr sparse ↦
      rw sparse (ground (arith, p.0, check_support-admits (e + w) ws fs p.1 (omega (arith, l))))
]
