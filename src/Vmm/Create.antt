-- ===== src/Vmm/Create.antt =====
-- `VmmOwner::create` leaves an owner that can grow.
use rola.Prelude.{
  >>=-eq-ok, Bool, ap, arith, max, min, not, ok, refuse_if, runtime_error, suc, sym, true, zero, ℕ,
  ◌*◌, ◌/◌, ◌<◌, ◌==◌, ◌||◌, ◌∙◌, ◌≡◌,
}
use mathlib.Core.Path.{subst}
use rola.Vmm.{VmmOwner, VmmProbe, reserve_plane, create}
use rola.Vmm.Growth.{IsValid, grow_covers}

reserve_plane-IsValid :
    (maps : ℕ → Bool) (limit page_bytes granularity target : ℕ)
    → 0 < limit
    → 0 < page_bytes
    → 0 < granularity
    → ((n : ℕ) → maps n ≡ true)
    → IsValid (reserve_plane maps limit page_bytes granularity target)
unfolding reserve_plane
reserve_plane-IsValid maps limit page_bytes granularity target l p g s = record {
  page_pos = p;
  granule_pos = g;
  chunk_pos = omega arith;
  served = λ n h. s n;
}

page_pos : (r c : ℕ) → 0 < r → 0 < c → 0 < r * c * 4
page_pos r zero h k = absurd (omega arith)
page_pos zero c h k = absurd (omega arith)
page_pos (suc r) (suc c) h k = omega arith

-- An owner that was created is valid, for the limit that was asked for.
pub create-IsValid :
    (probe : VmmProbe) (limit rows cols target : ℕ) (o : VmmOwner)
    → 0 < probe.granularity
    → ((n : ℕ) → probe.maps n ≡ true)
    → create probe limit rows cols target ≡ ok o
    → IsValid o × (o.dense_limit_pages ≡ limit)
unfolding create reserve_plane
create-IsValid probe limit rows cols target o g s run =
    let (a, sized, run1) =
      >>=-eq-ok (refuse_if (limit == 0 || rows == 0 || cols == 0) runtime_error) _ run in
    let (b, able, run2) = >>=-eq-ok (refuse_if (not probe.supported) runtime_error) _ run1 in
    let (c, chunked, run3) = >>=-eq-ok (refuse_if (target == 0) runtime_error) _ run2 in
    let (o', e, covers, mono, valid, same) =
      grow_covers (reserve_plane probe.maps limit (rows * cols * 4) probe.granularity target)
        (min limit (min limit (max 1 (target / (rows * cols * 4)))))
        (reserve_plane-IsValid probe.maps limit (rows * cols * 4) probe.granularity target
          (ground arith) (page_pos rows cols (ground arith) (ground arith)) g s)
        (omega arith) in
    let made : o' ≡ o = cc in
    (subst IsValid made valid, ap (λ p. p.dense_limit_pages) (sym made) ∙ same)
