-- ===== src/Vmm/Growth.antt =====
-- `VmmOwner::grow` maps what it is asked for, and never unmaps.
use rola.Prelude.{
  Bool, Bool-cases, Exception, arith, false, inl, inr, leb, ok, raised, refl, runtime_error, true,
  ℕ, ◌*◌, ◌+◌, ◌-◌, ◌/◌, ◌<◌, ◌==◌, ◌||◌, ◌≡◌, ◌≤◌,
}
use native.Mathlib.Nat.{
  le-div_iff_mul-le, mod-lt, div-add-mod, mul_comm, mul-le-mul_right, div-mul-le_self,
}
use rola.Vmm.{
  VmmOwner, ceil_div, round_up, mapped_capacity_pages, target_pages, target_bytes, virtual_bytes,
  grow,
}

-- The sizes are positive: `VmmOwner::create` refuses others, and `chunk_pages` is at least 1. The
-- driver serves the plane: it maps whatever is inside the reservation.
pub record IsValid (o : VmmOwner) : Type 0 where
  pub page_pos : 0 < o.page_bytes
  pub granule_pos : 0 < o.allocation_granularity
  pub chunk_pos : 0 < o.chunk_pages
  pub served : (n : ℕ) → n ≤ virtual_bytes o → o.maps n ≡ true

le-round_up : (a b : ℕ) → 0 < b → a ≤ round_up a b
le-round_up a b h =
    omega (arith, div-add-mod (a + b - 1) b, mod-lt (a + b - 1) h, mul_comm b ((a + b - 1) / b))

div_mono : (a b c : ℕ) → 0 < c → a ≤ b → a / c ≤ b / c
div_mono a b c pos h = (le-div_iff_mul-le pos).1 (omega (arith, div-mul-le_self a c))

round_up_mono : (a b c : ℕ) → 0 < c → a ≤ b → round_up a c ≤ round_up b c
round_up_mono a b c pos h =
    mul-le-mul_right c (div_mono (a + c - 1) (b + c - 1) c pos (omega arith))

target_pages-le : (o : VmmOwner) (p : ℕ) → target_pages o p ≤ o.dense_limit_pages
unfolding target_pages
target_pages-le o p = omega arith

le-target_pages :
    (o : VmmOwner) (p : ℕ) → IsValid o → p ≤ o.dense_limit_pages → p ≤ target_pages o p
unfolding target_pages
le-target_pages o p v h = elim (Bool-cases early) [
  | inl e ↦ rw e (omega (arith, covered (ceil_div p o.chunk_pages) (omega arith)))
  | inr e ↦ rw e (omega (arith, covered (ceil_div p o.chunk_pages + 1) (omega arith)))
]
  where
    early : Bool
    early =
        mapped_capacity_pages o == 0
        || leb (ceil_div o.dense_limit_pages o.chunk_pages) (ceil_div p o.chunk_pages)

    covered : (k : ℕ) → ceil_div p o.chunk_pages ≤ k → p ≤ k * o.chunk_pages
    covered k le =
        omega (arith, le-round_up p o.chunk_pages v.chunk_pos, mul-le-mul_right o.chunk_pages le)

target_bytes-le :
    (o : VmmOwner) (p : ℕ) → 0 < o.allocation_granularity → target_bytes o p ≤ virtual_bytes o
unfolding target_bytes virtual_bytes
target_bytes-le o p granule_pos =
    round_up_mono (target_pages o p * o.page_bytes) (o.page_bytes * o.dense_limit_pages) _
      granule_pos
      (omega (
        arith,
        mul-le-mul_right o.page_bytes (target_pages-le o p),
        mul_comm o.page_bytes o.dense_limit_pages,
      ))

-- What is mapped once `target_bytes` are.
le-target_bytes :
    (o : VmmOwner) (p m : ℕ)
    → IsValid o
    → p ≤ o.dense_limit_pages
    → target_bytes o p ≤ m
    → p ≤ mapped_capacity_pages (record o { mapped_bytes = m })
unfolding target_bytes mapped_capacity_pages
le-target_bytes o p m v h le = omega (
  arith,
  (le-div_iff_mul-le {x = target_pages o p} {y = m} v.page_pos).1
      (omega (arith, le-round_up (target_pages o p * o.page_bytes) _ v.granule_pos)),
  le-target_pages o p v h,
)

mapped_mono :
    (o : VmmOwner) (m : ℕ)
    → IsValid o
    → o.mapped_bytes ≤ m
    → mapped_capacity_pages o ≤ mapped_capacity_pages (record o { mapped_bytes = m })
unfolding mapped_capacity_pages
mapped_mono o m v le = omega (arith, div_mono o.mapped_bytes m o.page_bytes v.page_pos le)

-- A growth of a valid owner within its reservation, which the driver serves, returns: the pages
-- asked for are then mapped, none is lost, and the owner is valid for the same reservation.
pub grow_covers :
    (o : VmmOwner) (p : ℕ)
    → IsValid o
    → p ≤ o.dense_limit_pages
    → (o' : VmmOwner) × (grow o p ≡ ok o')
      × (p ≤ mapped_capacity_pages o')
      × (mapped_capacity_pages o ≤ mapped_capacity_pages o')
      × IsValid o'
      × (o'.dense_limit_pages ≡ o.dense_limit_pages)
unfolding grow virtual_bytes
grow_covers o p v h = elim (Bool-cases (leb p (mapped_capacity_pages o))) [
  | inl e ↦ (o, ground arith, ground arith, omega arith, v, refl)
  | inr e ↦ elim (Bool-cases (leb (target_bytes o p) o.mapped_bytes)) [
    | inl f ↦ (
      o,
      ground arith,
      le-target_bytes o p o.mapped_bytes v h (ground arith),
      omega arith,
      v,
      refl,
    )
    | inr f ↦ (
      record o { mapped_bytes = target_bytes o p },
      ground (
        arith,
        target_bytes-le o p v.granule_pos,
        v.served (target_bytes o p) (target_bytes-le o p v.granule_pos),
      ),
      le-target_bytes o p (target_bytes o p) v h (omega arith),
      mapped_mono o (target_bytes o p) v (ground arith),
      record {
        page_pos = v.page_pos;
        granule_pos = v.granule_pos;
        chunk_pos = v.chunk_pos;
        served = v.served;
      },
      refl,
    )
  ]
]

-- A growth within the reservation that raises is one that the driver does not serve.
pub grow_refused :
    (o : VmmOwner) (p : ℕ) (e : Exception)
    → 0 < o.allocation_granularity
    → p ≤ o.dense_limit_pages
    → grow o p ≡ raised e
    → (e ≡ runtime_error) × (o.maps (target_bytes o p) ≡ false)
unfolding grow
grow_refused o p e pos h run =
    let inside = target_bytes-le o p pos in
    (ground (arith, inside, run), ground (arith, inside, run))
