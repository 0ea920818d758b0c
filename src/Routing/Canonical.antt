-- ===== src/Routing/Canonical.antt =====
-- What an accepted `RouteDescriptor` is, and the checks of its tensors.
use rola.Prelude.{
  All, List, [], ap, arith, get_or, length, ok, refl, sum, sym, true, ℕ, ◌+◌, ◌/◌, ◌<◌, ◌↔◌, ◌∙◌,
  ◌∷◌, ◌≡◌, ◌≤◌,
}
use rola.Routing.Packed.{offsets_from}
use rola.Routing.Descriptor.{
  Dtype, TensorFacts, RouteDescriptor, radix_strides, support_offsets_from, stamp_of, is_bfloat16,
  is_int32, check_values, check_words,
}
use rola.Routing.Metadata.{tuple_eq_iff, sparse_width}

-- The facts of the values and of the support words of a plan.
abbrev pub values_facts : ℕ → ℕ → ℕ → ℕ → TensorFacts
values_facts batch_heads tiles width device = record {
  shape = batch_heads ∷ tiles ∷ width ∷ 32 ∷ [];
  dtype = Dtype.bfloat16;
  contiguous = true;
  device = device;
}

abbrev pub words_facts : ℕ → ℕ → ℕ → ℕ → TensorFacts
words_facts batch_heads tiles width device = record {
  shape = batch_heads ∷ tiles ∷ width ∷ [];
  dtype = Dtype.int32;
  contiguous = true;
  device = device;
}

-- What a descriptor is of widths and flags, for some batch-heads and tokens on a device: nothing of it
-- but these and the token origin is free.
pub record IsCanonical (d : RouteDescriptor) : Type 0 where
  pub batch_heads : ℕ
  pub device : ℕ
  pub some_level : 0 < length d.level_widths
  pub depth : length d.level_widths ≤ 4
  pub widths : All (λ w. (2 ≤ w) × (w ≤ 256)) d.level_widths
  pub flags : All (λ f. f ≤ 3) d.support_side_flags
  pub flag_count : length d.support_side_flags ≡ length d.level_widths
  pub offsets : d.level_offsets ≡ offsets_from 0 d.level_widths
  pub supports : d.support_offsets ≡ support_offsets_from 0 d.level_widths d.support_side_flags
  pub strides : d.radix_strides ≡ radix_strides d.level_widths
  pub stamp : d.topology_stamp ≡ stamp_of d.level_widths d.radix_strides d.support_side_flags
  pub reads :
      d.read_values
      ≡ values_facts batch_heads ((d.token_count + 31) / 32) (sum d.level_widths) device
  pub writes : d.write_values ≡ d.read_values
  pub words :
      d.support_words
      ≡ words_facts batch_heads
          ((d.token_count + 31) / 32)
          (sparse_width d.level_widths d.support_side_flags)
          device

is_bfloat16_lem : (t : Dtype) → is_bfloat16 t ≡ true → t ≡ Dtype.bfloat16
unfolding is_bfloat16
is_bfloat16_lem Dtype.bfloat16 h = refl
is_bfloat16_lem Dtype.int32 h = cc
is_bfloat16_lem (Dtype.other_dtype n) h = cc

is_int32_lem : (t : Dtype) → is_int32 t ≡ true → t ≡ Dtype.int32
unfolding is_int32
is_int32_lem Dtype.int32 h = refl
is_int32_lem Dtype.bfloat16 h = cc
is_int32_lem (Dtype.other_dtype n) h = cc

facts_eq :
    (t : TensorFacts) (s : List ℕ) (d : Dtype) (v : ℕ)
    → t.shape ≡ s
    → t.dtype ≡ d
    → t.contiguous ≡ true
    → t.device ≡ v
    → t ≡ record { shape = s; dtype = d; contiguous = true; device = v }
facts_eq t s d v a b c e = λ i. record { shape = a i; dtype = b i; contiguous = c i; device = e i }

-- The values that pass: bfloat16 of the expected shape, on one device.
pub check_values_iff :
    (reads writes : TensorFacts) (tiles width : ℕ)
    → (check_values reads writes tiles width ≡ ok tt) ↔ (
        (reads ≡ record {
          shape = get_or reads.shape 0 0 ∷ tiles ∷ width ∷ 32 ∷ [];
          dtype = Dtype.bfloat16;
          contiguous = true;
          device = reads.device;
        })
        × (writes ≡ reads))
unfolding check_values
check_values_iff reads writes tiles width = (
  λ h.
      let r =
        facts_eq reads expected Dtype.bfloat16 reads.device
          ((tuple_eq_iff reads.shape expected).0 (ground arith))
          (is_bfloat16_lem reads.dtype (ground arith)) (ground arith) refl in
      let w =
        facts_eq writes expected Dtype.bfloat16 reads.device
          ((tuple_eq_iff writes.shape expected).0 (ground arith))
          (is_bfloat16_lem writes.dtype (ground arith)) (ground arith) (ground arith) in
      (r, w ∙ sym r),
  λ h.
      let shapes = (tuple_eq_iff reads.shape expected).1 (ap (λ t. t.shape) h.0) in
      let shapes' = (tuple_eq_iff writes.shape expected).1 (ap (λ t. t.shape) (h.1 ∙ h.0)) in
      let type = ap (λ t. is_bfloat16 t.dtype) h.0 in
      let type' = ap (λ t. is_bfloat16 t.dtype) (h.1 ∙ h.0) in
      let dense = ap (λ t. t.contiguous) h.0 in
      let dense' = ap (λ t. t.contiguous) (h.1 ∙ h.0) in
      let place = ap (λ t. t.device) h.1 in
      rw (type, type', shapes, shapes', dense, dense') (ground (arith, place)),
)
  where
    expected : List ℕ
    expected = get_or reads.shape 0 0 ∷ tiles ∷ width ∷ 32 ∷ []

pub check_words_iff :
    (reads words : TensorFacts) (tiles width : ℕ)
    → (check_words reads words tiles width ≡ ok tt) ↔ (
        words ≡ record {
          shape = get_or reads.shape 0 0 ∷ tiles ∷ width ∷ [];
          dtype = Dtype.int32;
          contiguous = true;
          device = reads.device;
        })
unfolding check_words
check_words_iff reads words tiles width = (
  λ h.
      facts_eq words expected Dtype.int32 reads.device
        ((tuple_eq_iff words.shape expected).0 (ground arith))
        (is_int32_lem words.dtype (ground arith)) (ground arith) (ground arith),
  λ h.
      let shapes = (tuple_eq_iff words.shape expected).1 (ap (λ t. t.shape) h) in
      let type = ap (λ t. is_int32 t.dtype) h in
      let dense = ap (λ t. t.contiguous) h in
      let place = ap (λ t. t.device) h in rw (type, shapes, dense) (ground (arith, place)),
)
  where
    expected : List ℕ
    expected = get_or reads.shape 0 0 ∷ tiles ∷ width ∷ []

pub small_wide :
    (widths : List ℕ)
    → All (λ w. 2 ≤ w) widths
    → All (λ w. w ≤ 256) widths
    → All (λ w. (2 ≤ w) × (w ≤ 256)) widths
small_wide [] p q = tt
small_wide (w ∷ widths) p q = ((p.0, q.0), small_wide widths p.1 q.1)

pub wide_part : (widths : List ℕ) → All (λ w. (2 ≤ w) × (w ≤ 256)) widths → All (λ w. 2 ≤ w) widths
wide_part [] p = tt
wide_part (w ∷ widths) p = (p.0.0, wide_part widths p.1)

pub small_part :
    (widths : List ℕ) → All (λ w. (2 ≤ w) × (w ≤ 256)) widths → All (λ w. w ≤ 256) widths
small_part [] p = tt
small_part (w ∷ widths) p = (p.0.1, small_part widths p.1)
