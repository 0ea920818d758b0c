-- ===== src/Routing/Bundle.antt =====
-- When a `RouteFactors` is accepted.
use rola.Prelude.{
  >>=-eq-ok, List, Option, [], ap, arith, get_or, length, map, none, ok, refl, some, suc, sym, take,
  ℕ, ◌>>=◌, ◌↔◌, ◌∷◌, ◌≡◌,
}
use mathlib.Core.Path.{subst}
use rola.Routing.{LevelRouting, width_of}
use rola.Routing.Descriptor.{TensorFacts, Dtype}
use rola.Routing.Metadata.{seq_iff}
use rola.Routing.Factors.{
  Entry, RouteFactors, prefix_of, agree_with, check_level, check_side, check_column, check_sides,
  check_columns, check_bundle, route_factors,
}
use rola.Routing.Entries.{
  AreLevels, IsColumn, of_four, prefix-append, check_side-AreLevels, AreLevels-check_side,
  check_column_iff,
}

-- All levels of both sides are of one prefix `[B, T, H]`, one device and one type, and the columns of
-- that prefix.
pub record IsBundle (widths : List ℕ) (r : RouteFactors) : Type 0 where
  pub batch : ℕ
  pub tokens : ℕ
  pub heads : ℕ
  pub device : ℕ
  pub dtype : Dtype
  pub reads : AreLevels (batch ∷ tokens ∷ heads ∷ []) device dtype widths r.read
  pub writes : AreLevels (batch ∷ tokens ∷ heads ∷ []) device dtype widths r.write
  pub gain : IsColumn (batch ∷ tokens ∷ heads ∷ []) r.g_write
  pub mass : IsColumn (batch ∷ tokens ∷ heads ∷ []) r.read_mass

-- The first tensor of the loop has the prefix that it sets.
prefix_of-three :
    (t : TensorFacts)
    → length t.shape ≡ 4
    → (b : ℕ) × (n : ℕ) × (h : ℕ) × (prefix_of t ≡ b ∷ n ∷ h ∷ [])
unfolding prefix_of
prefix_of-three t e = three t.shape e
  where
    three : (s : List ℕ) → length s ≡ 4 → (b : ℕ) × (n : ℕ) × (h : ℕ) × (take 3 s ≡ b ∷ n ∷ h ∷ [])
    three [] e = absurd (omega arith)
    three (a ∷ []) e = absurd (omega arith)
    three (a ∷ b ∷ []) e = absurd (omega arith)
    three (a ∷ b ∷ c ∷ s) e = (a, b, c, refl)

-- The read side sets the prefix, the device and the type.
read_side-AreLevels :
    (o : Option TensorFacts) (w : ℕ) (widths : List ℕ) (entries : List Entry)
    → length entries ≡ suc (length widths)
    → check_side none (w ∷ widths) entries ≡ ok o
    → (a : TensorFacts) × (o ≡ some a)
      × (length a.shape ≡ 4)
      × AreLevels (prefix_of a) a.device a.dtype (w ∷ widths) entries
unfolding check_side check_level agree_with prefix_of
read_side-AreLevels o w widths [] n h = absurd (omega arith)
read_side-AreLevels o w widths (Entry.missing ∷ entries) n h = cc
read_side-AreLevels o w widths (Entry.foreign ∷ entries) n h = cc
read_side-AreLevels o w widths (Entry.tensor t ∷ entries) n h =
    let four : length t.shape ≡ 4 = ground (arith, h) in
    let wide : get_or t.shape 3 0 ≡ w = ground (arith, h) in
    let rest = check_side-AreLevels t o widths entries (omega (arith, n)) (ground (arith, h)) in
    (t, rest.0, four, ((of_four t.shape w four wide, refl, refl), rest.1))

AreLevels-read_side :
    (p : List ℕ) (device : ℕ) (dtype : Dtype) (w : ℕ) (widths : List ℕ) (entries : List Entry)
    → length p ≡ 3
    → AreLevels p device dtype (w ∷ widths) entries
    → (a : TensorFacts) × (prefix_of a ≡ p)
      × (a.device ≡ device)
      × (a.dtype ≡ dtype)
      × (length entries ≡ suc (length widths))
      × (check_side none (w ∷ widths) entries ≡ ok (some a))
unfolding check_side check_level agree_with
AreLevels-read_side p device dtype w widths [] n h = absurd h
AreLevels-read_side p device dtype w widths (Entry.missing ∷ entries) n h = absurd h.0
AreLevels-read_side p device dtype w widths (Entry.foreign ∷ entries) n h = absurd h.0
AreLevels-read_side p device dtype w widths (Entry.tensor t ∷ entries) n h =
    let shaped = prefix-append p t w n h.0.0 in
    let rest = AreLevels-check_side p t widths entries n shaped.0 (
      subst (λ d. AreLevels p d t.dtype widths entries) (sym h.0.1)
        (subst (λ d. AreLevels p device d widths entries) (sym h.0.2) h.1)) in
    (t, shaped.0, h.0.1, h.0.2, ap suc rest.0, rw (shaped.1, shaped.2) (ground (arith, rest.1)))

-- Sides and columns that go with `read[0]`, of the prefix that it has.
IsBundle-from :
    (r : RouteFactors) (a : TensorFacts) (widths p : List ℕ)
    → (b : ℕ) × (n : ℕ) × (k : ℕ) × (p ≡ b ∷ n ∷ k ∷ [])
    → AreLevels p a.device a.dtype widths r.read
    → AreLevels p a.device a.dtype widths r.write
    → IsColumn p r.g_write
    → IsColumn p r.read_mass
    → IsBundle widths r
IsBundle-from r a widths p (b, n, k, e) reads writes gain mass = record {
  batch = b;
  tokens = n;
  heads = k;
  device = a.device;
  dtype = a.dtype;
  reads = subst (λ q. AreLevels q a.device a.dtype widths r.read) e reads;
  writes = subst (λ q. AreLevels q a.device a.dtype widths r.write) e writes;
  gain = subst (λ q. IsColumn q r.g_write) e gain;
  mass = subst (λ q. IsColumn q r.read_mass) e mass;
}

check_sides-AreLevels :
    (r : RouteFactors) (w : ℕ) (widths : List ℕ) (o : Option TensorFacts)
    → length r.read ≡ suc (length widths)
    → length r.write ≡ suc (length widths)
    → check_sides r (w ∷ widths) ≡ ok o
    → (a : TensorFacts) × (o ≡ some a)
      × (length a.shape ≡ 4)
      × AreLevels (prefix_of a) a.device a.dtype (w ∷ widths) r.read
      × AreLevels (prefix_of a) a.device a.dtype (w ∷ widths) r.write
unfolding check_sides
check_sides-AreLevels r w widths o reads_many writes_many h =
    let (first, read_side, write_side) =
      >>=-eq-ok (check_side none (w ∷ widths) r.read) (λ x. check_side x (w ∷ widths) r.write) h in
    let (a, is_a, four, reads) = read_side-AreLevels first w widths r.read reads_many read_side in
    let kept =
      check_side-AreLevels a o (w ∷ widths) r.write writes_many
        (subst (λ x. check_side x (w ∷ widths) r.write ≡ ok o) is_a write_side) in
    (a, kept.0, four, reads, kept.1)

check_columns_iff :
    (r : RouteFactors) (a : TensorFacts)
    → (check_columns r (some a) ≡ ok tt)
      ↔ (IsColumn (prefix_of a) r.g_write × IsColumn (prefix_of a) r.read_mass)
unfolding check_columns
check_columns_iff r a =
    let both = seq_iff (check_column (some a) r.g_write) (check_column (some a) r.read_mass) in
    (
      λ h. (
        (check_column_iff a r.g_write).0 (both.0 h).0,
        (check_column_iff a r.read_mass).0 (both.0 h).1,
      ),
      λ h. both.1 ((check_column_iff a r.g_write).1 h.0, (check_column_iff a r.read_mass).1 h.1),
    )

check_bundle-IsBundle :
    (r : RouteFactors) (w : ℕ) (widths : List ℕ)
    → check_bundle r (w ∷ widths) ≡ ok tt
    → IsBundle (w ∷ widths) r
unfolding check_bundle
check_bundle-IsBundle r w widths h =
    let later : (check_sides r (w ∷ widths) >>= check_columns r) ≡ ok tt = ground (arith, h) in
    let (o, sides, columns) = >>=-eq-ok (check_sides r (w ∷ widths)) (check_columns r) later in
    let (a, is_a, four, reads, writes) =
      check_sides-AreLevels r w widths o (ground (arith, h)) (ground (arith, h)) sides in
    let shaped = (check_columns_iff r a).0 (subst (λ x. check_columns r x ≡ ok tt) is_a columns) in
    IsBundle-from r a (w ∷ widths) (prefix_of a) (prefix_of-three a four) reads writes shaped.0
      shaped.1

IsBundle-check_bundle :
    (r : RouteFactors) (w : ℕ) (widths : List ℕ)
    → IsBundle (w ∷ widths) r
    → check_bundle r (w ∷ widths) ≡ ok tt
unfolding check_bundle check_sides check_columns
IsBundle-check_bundle r w widths b =
    let p : List ℕ = b.batch ∷ b.tokens ∷ b.heads ∷ [] in
    let (a, q, dev, typ, many, reads) =
      AreLevels-read_side p b.device b.dtype w widths r.read refl b.reads in
    let (as_many, writes) = AreLevels-check_side p a (w ∷ widths) r.write refl q (
      subst (λ d. AreLevels p d a.dtype (w ∷ widths) r.write) (sym dev)
        (subst (λ d. AreLevels p b.device d (w ∷ widths) r.write) (sym typ) b.writes)) in
    let columns : check_columns r (some a) ≡ ok tt =
      (check_columns_iff r a).1
        (subst (λ x. IsColumn x r.g_write × IsColumn x r.read_mass) (sym q) (b.gain, b.mass)) in
    rw (many, as_many, reads, writes) (ground (arith, columns))

-- Over a topology of one level at least, a `RouteFactors` is accepted, as it is, exactly when both
-- sides have a tensor for each level, all of one prefix [B, T, H] with the width of the level
-- behind it, one device and one type, and each of the two columns is absent or a tensor of that
-- prefix.
pub route_factors_iff :
    (r : RouteFactors) (level : LevelRouting) (levels : List LevelRouting)
    → r.topology ≡ some (level ∷ levels)
    → (route_factors r ≡ ok r) ↔ IsBundle (map width_of (level ∷ levels)) r
unfolding route_factors
route_factors_iff r level levels e = (
  λ h.
      let (u, checked, done) = >>=-eq-ok _ _ (rw e at h) in
      check_bundle-IsBundle r (width_of level) (map width_of levels) checked,
  λ b. rw (e, IsBundle-check_bundle r (width_of level) (map width_of levels) b) refl,
)
