-- ===== src/Arena/Created.antt =====
-- The constructor of an arena leaves it valid, with nothing resident.
use rola.Prelude.{
  >>=-eq-ok, >>=-returns, Bool, Bool-cases, [], ap, arith, false, inl, inr, length-replicate, ltb,
  none, not, ok, prod, refl, refuse_if, replicate, suc, sym, true, value_error, zero,
  zero_division_error, ℕ, ◌%◌, ◌<◌, ◌==◌, ◌∙◌, ◌≡◌, ◌≤◌,
}
use mathlib.Core.Path.{subst}
use rola.Vmm
use rola.Vmm.{VmmOwner}
use rola.Vmm.Create.{create-IsValid}
use rola.Keying.{
  AtomKeying, atom_keying, atoms_per_bh, logical_atoms, atoms_per_owner, mma_k_quantum,
}
use rola.Extents.{ExtentAllocator, extent_allocator}
use rola.Arena.{Backing, dense, vmm, Arena, reserve_pool}
use rola.Arena.Create.{
  constructed, ArenaOptions, resolved_extent, resolve_backing, make_backing, blank_arena,
  page_arena,
}
use rola.Arena.Table.{slot_count-absent}
use rola.Tensor.Laws.{count}
use rola.Arena.Pool.{pool_count}
use rola.Arena.Invariant.{Backs, IsValid}
use rola.Arena.Reset.{IsBlank, reserve_pool-IsValid}

-- What the constructor relies on: the driver's granule is positive, the driver maps what it is
-- asked for, and a fraction in [0, 1] of a count is at most the count.
pub record IsSane (opts : ArenaOptions) : Type 0 where
  pub granule_pos : 0 < opts.probe.granularity
  pub served : (n : ℕ) → opts.probe.maps n ≡ true
  pub fraction : opts.pool_slack.in_range ≡ true → (n : ℕ) → opts.pool_slack.ceil_of n ≤ n

same {ℓ} : {A : Type ℓ} (x y : A) → ok x ≡ ok y → x ≡ y
same x y h = cc

make_backing-Backs :
    (on_driver : Bool) (opts : ArenaOptions) (pages : ℕ) (b : Backing)
    → IsSane opts
    → make_backing on_driver opts pages ≡ ok b
    → Backs b pages
unfolding make_backing
make_backing-Backs false opts pages b s run = subst (λ c. Backs c pages) (same dense b run) tt
make_backing-Backs true opts pages b s run =
    let (owner, e, made) =
      >>=-eq-ok (Vmm.create opts.probe pages mma_k_quantum opts.cols opts.probe.granularity) _
        run in
    subst (λ c. Backs c pages) (same (vmm owner) b made)
      (create-IsValid opts.probe pages mma_k_quantum opts.cols opts.probe.granularity owner
        s.granule_pos s.served e)

extent_allocator-eq :
    (capacity extent : ℕ) (al : ExtentAllocator)
    → extent_allocator capacity extent ≡ ok al
    → (al.capacity ≡ capacity) × (0 < al.extent_atoms) × (al.next ≡ 0)
unfolding extent_allocator
extent_allocator-eq capacity extent al run = elim (Bool-cases (ltb extent 1)) [
  | inl bad ↦ cc
  | inr good ↦
      let made =
        same (record { capacity = capacity; extent_atoms = extent; next = 0 }) al (ground arith) in
      (
        sym (ap (λ c. c.capacity) made),
        omega (arith, at good, ap (λ c. c.extent_atoms) made),
        sym (ap (λ c. c.next) made),
      )
]
  where
    at : ltb extent 1 ≡ false → 0 < extent
    at h = ground arith

pool_count-empty : (s n : ℕ) → pool_count s (replicate n []) (replicate n 0) ≡ 0
unfolding pool_count count
pool_count-empty s zero = refl
pool_count-empty s (suc n) = omega (arith, pool_count-empty s n)

pub atom_keying-eq :
    (n cols bh : ℕ) (k : AtomKeying)
    → atom_keying n cols bh ≡ ok k
    → (k ≡ record { n = n; cols = cols; bh = bh }) × (n % 16 ≡ 0)
unfolding atom_keying
atom_keying-eq n cols bh k run = elim (Bool-cases (n % mma_k_quantum == 0)) [
  | inl whole ↦ (sym (same (record { n = n; cols = cols; bh = bh }) k (ground arith)), ground arith)
  | inr ragged ↦ cc
]

module _ {ℓ} {P : Type ℓ} (zeros unset : P) where
  blank_arena-IsBlank :
      (opts : ArenaOptions) (keying : AtomKeying) (al : ExtentAllocator) (b : Backing)
      → opts.pool_slack.ceil_of (atoms_per_bh keying) ≤ atoms_per_bh keying
      → (al.capacity ≡ logical_atoms keying) × (0 < al.extent_atoms) × (al.next ≡ 0)
      → Backs b (logical_atoms keying)
      → IsBlank zeros (blank_arena zeros unset opts keying al b)
  unfolding blank_arena
  blank_arena-IsBlank opts keying al b small al_is backs = record {
    sized = record {
      plane =
          length-replicate (logical_atoms keying) (elim b [ dense ↦ zeros | vmm owner ↦ unset ]);
      capacity = al_is.0;
      extent_pos = al_is.1;
      pool_small = small;
      backs = backs;
      rows = length-replicate (logical_atoms keying) none;
    };
    start = al_is.2;
    no_slots = λ s. slot_count-absent (logical_atoms keying) s;
    pool_off = λ off s. rw off (pool_count-empty s keying.bh);
  }

  -- What is said of an arena that is constructed.
  abbrev pub IsNew : Arena P → Type ℓ
  IsNew a = IsValid zeros a × (a.page_table ≡ replicate (logical_atoms a.keying) none)

  constructed-IsNew :
      (opts : ArenaOptions) (keying : AtomKeying) (al : ExtentAllocator) (b : Backing)
      → IsBlank zeros (blank_arena zeros unset opts keying al b)
      → (a : Arena P)
      → constructed (reserve_pool zeros (blank_arena zeros unset opts keying al b)) ≡ ok a
      → IsNew a
  unfolding blank_arena constructed
  constructed-IsNew opts keying al b v a run =
      let (a', e, fresh) =
        reserve_pool-IsValid zeros (blank_arena zeros unset opts keying al b) v in
      subst IsNew (same a' a ((sym (ap constructed e)) ∙ run))
        (fresh.valid, fresh.table ∙ rw fresh.same_keying refl)

  -- An arena that is constructed is valid, and no atom is resident, where the granule of the driver
  -- is positive, the driver maps what it is asked for, and a fraction of a count is at most the
  -- count.
  pub page_arena-IsValid :
      (opts : ArenaOptions) (a : Arena P)
      → IsSane opts
      → page_arena zeros unset opts ≡ ok a
      → IsNew a
  unfolding page_arena
  page_arena-IsValid opts a s run =
      >>=-returns {Q = IsNew} (atom_keying (prod opts.widths) opts.cols opts.bh)
        (λ keying e1. >>=-returns {Q = IsNew} (atoms_per_owner opts.bc) (λ qpo e2.
          >>=-returns {Q = IsNew} (refuse_if (opts.bc == 0) zero_division_error) (λ u e3.
            >>=-returns {Q = IsNew}
              (extent_allocator (logical_atoms keying) (resolved_extent opts.extent_atoms qpo))
              (λ al e4.
                >>=-returns {Q = IsNew} (refuse_if (not opts.pool_slack.in_range) value_error)
                  (λ t e5.
                    >>=-returns {Q = IsNew} (resolve_backing opts.backing opts.on_cuda opts.probe)
                      (λ d e6.
                        >>=-returns {Q = IsNew} (make_backing d opts (logical_atoms keying))
                          (λ b e7. constructed-IsNew opts keying al b (
                            blank_arena-IsBlank opts keying al b
                              (s.fraction (ground arith) (atoms_per_bh keying))
                              (extent_allocator-eq (logical_atoms keying)
                                (resolved_extent opts.extent_atoms qpo) al e4)
                              (make_backing-Backs d opts (logical_atoms keying) b s e7)))))))))
        a run

  -- Its keying is the one of its arguments.
  abbrev HasKeying : ArenaOptions → Arena P → Type 0
  HasKeying opts a = a.keying ≡ record { n = prod opts.widths; cols = opts.cols; bh = opts.bh }

  constructed-keying :
      (opts : ArenaOptions) (keying : AtomKeying) (al : ExtentAllocator) (b : Backing)
      → IsBlank zeros (blank_arena zeros unset opts keying al b)
      → (a : Arena P)
      → constructed (reserve_pool zeros (blank_arena zeros unset opts keying al b)) ≡ ok a
      → a.keying ≡ keying
  unfolding blank_arena constructed
  constructed-keying opts keying al b v a run =
      let (a', e, fresh) =
        reserve_pool-IsValid zeros (blank_arena zeros unset opts keying al b) v in
      ap (λ c. c.keying) (sym (same a' a ((sym (ap constructed e)) ∙ run))) ∙ fresh.same_keying

  pub page_arena-keying :
      (opts : ArenaOptions) (a : Arena P)
      → IsSane opts
      → page_arena zeros unset opts ≡ ok a
      → HasKeying opts a × (prod opts.widths % 16 ≡ 0)
  unfolding page_arena
  page_arena-keying opts a s run =
      >>=-returns {Q = Keyed} (atom_keying (prod opts.widths) opts.cols opts.bh)
        (λ keying e1. >>=-returns {Q = Keyed} (atoms_per_owner opts.bc) (λ qpo e2.
          >>=-returns {Q = Keyed} (refuse_if (opts.bc == 0) zero_division_error) (λ u e3.
            >>=-returns {Q = Keyed}
              (extent_allocator (logical_atoms keying) (resolved_extent opts.extent_atoms qpo))
              (λ al e4.
                >>=-returns {Q = Keyed} (refuse_if (not opts.pool_slack.in_range) value_error)
                  (λ t e5.
                    >>=-returns {Q = Keyed} (resolve_backing opts.backing opts.on_cuda opts.probe)
                      (λ d e6.
                        >>=-returns {Q = Keyed} (make_backing d opts (logical_atoms keying))
                          (λ b e7. λ c built.
                            let (is, whole) =
                              atom_keying-eq (prod opts.widths) opts.cols opts.bh keying e1 in
                            (
                              constructed-keying opts keying al b
                                    (blank_arena-IsBlank opts keying al b
                                      (s.fraction (ground arith) (atoms_per_bh keying))
                                      (extent_allocator-eq (logical_atoms keying)
                                        (resolved_extent opts.extent_atoms qpo) al e4)
                                      (make_backing-Backs d opts (logical_atoms keying) b s e7))
                                    c built
                                  ∙ is,
                              whole,
                            ))))))))
        a run
    where
      Keyed : Arena P → Type 0
      Keyed c = HasKeying opts c × (prod opts.widths % 16 ≡ 0)
