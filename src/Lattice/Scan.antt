-- ===== src/Lattice/Scan.antt =====
-- The loops of `derive_lattice` end, and what they make of the best box.
use rola.Prelude.{
  Bool-cases, List, Option, ap, arith, false, if-keeps, inl, inr, leb, leb→le, none, ok,
  ok_injective, prod, refl, some, suc, sym, zero, ℕ, ◌+◌, ◌<◌, ◌^◌, ◌∙◌, ◌∷◌, ◌≡◌, ◌≤◌, ◌⊎◌,
}
use mathlib.Core.Path.{subst}
use native.Mathlib.Decide.{dec_lt}
use rola.Lattice.{Level}
use rola.Lattice.Search.{
  Best, spans_of, admissible, rank_of, consider, floor_box, scan_capacities, scan_spans,
}
use rola.Lattice.Ranks.{Atop, Atop-refl, Atop-trans, consider-keeps, consider-beats}
use rola.Lattice.Admitted.{IsCandidate, admissible-fitting, admissible_total}

pub lt-two_pow : (n : ℕ) → n < 2 ^ n
lt-two_pow zero = omega arith
lt-two_pow (suc n) = omega (arith, lt-two_pow n)

two_pow_mono : (i j : ℕ) → i ≤ j → 2 ^ i ≤ 2 ^ j
two_pow_mono zero zero le = omega arith
two_pow_mono (suc i) zero le = absurd (omega arith)
two_pow_mono zero (suc j) le = omega (arith, lt-two_pow (suc j))
two_pow_mono (suc i) (suc j) le = omega (arith, two_pow_mono i j (omega arith))

module _ (log2 : ℕ → ℕ) (w : ℕ) (ws : List ℕ) where
  abbrev pub widths : List ℕ
  widths = w ∷ ws

  -- The floor, or a box that the search may choose, with its rank.
  unfoldable pub IsChosen : Best → Type 0
  IsChosen best =
      (best ≡ floor_box)
      ⊎ ((box : List Level) × IsCandidate log2 widths best.k best.m box
          × (best.rank ≡ rank_of (spans_of box) best.k))

  consider-IsChosen :
      (kappa j : ℕ) (o : Option (List ℕ)) (best : Best)
      → 2 ^ kappa ≤ 4
      → 2 ^ j ≤ prod widths
      → admissible log2 (2 ^ kappa) (2 ^ j) widths ≡ ok o
      → IsChosen best
      → IsChosen (consider (2 ^ kappa) (2 ^ j) o best)
  unfolding consider IsChosen
  consider-IsChosen kappa j none best le le' e c = c
  consider-IsChosen kappa j (some spans) best le le' e c =
      let (box, fits, same, cap, narrow) =
        admissible-fitting log2 widths (2 ^ kappa) (2 ^ j) spans e in
      if-keeps IsChosen _
        (λ more. inr (
          box,
          record {
            kappa = kappa;
            k_is = refl;
            k_le = le;
            j = j;
            m_is = refl;
            m_le = le';
            fits = fits;
            cap = cap;
            narrow = narrow;
          },
          ap (λ s. rank_of s (2 ^ kappa)) same,
        ))
        (λ less. c)

  -- What a scan of the capacities from `2 ^ j` on makes of the best box.
  record IsScan (kappa j rounds : ℕ) (best after : Best) : Type 0 where
    kept : Atop after.rank best.rank
    chosen : IsChosen best → IsChosen after
    beats :
        (j' : ℕ) (spans : List ℕ)
        → j ≤ j'
        → j' < j + rounds
        → 2 ^ j' ≤ prod widths
        → admissible log2 (2 ^ kappa) (2 ^ j') widths ≡ ok (some spans)
        → Atop after.rank (rank_of spans (2 ^ kappa))

  scan_capacities-IsScan :
      (kappa rounds j : ℕ) (best : Best)
      → 2 ^ kappa ≤ 4
      → (after : Best) × (scan_capacities log2 widths (2 ^ kappa) rounds j best ≡ ok after)
        × IsScan kappa j rounds best after
  unfolding scan_capacities
  scan_capacities-IsScan kappa zero j best le = (
    best,
    refl,
    record {
      kept = Atop-refl best.rank;
      chosen = λ c. c;
      beats = λ j' spans ge lt le' e. absurd (omega arith);
    },
  )
  scan_capacities-IsScan kappa (suc rounds) j best le =
      elim (Bool-cases (leb (2 ^ j) (prod widths))) [
        | inl more ↦
            let (o, e) = admissible_total log2 w ws (2 ^ kappa) (2 ^ j) in
            let (after, e', s) =
              scan_capacities-IsScan kappa rounds (suc j) (consider (2 ^ kappa) (2 ^ j) o best)
                le in
            (
              after,
              rw (more, e) e',
              record {
                kept =
                    Atop-trans after.rank _ best.rank s.kept
                      (consider-keeps (2 ^ kappa) (2 ^ j) o best);
                chosen = λ c.
                    s.chosen
                      (consider-IsChosen kappa j o best le (leb→le (2 ^ j) (prod widths) more) e c);
                beats = λ j' spans ge lt le' e'. elim (dec_lt j j') [
                  | yes later ↦ s.beats j' spans (omega arith) (omega arith) le' e'
                  | no last ↦
                      let now : j' ≡ j = omega arith in
                      Atop-trans after.rank (consider (2 ^ kappa) (2 ^ j) o best).rank _ s.kept (
                        subst
                          (λ p.
                            Atop (consider (2 ^ kappa) (2 ^ j) p best).rank
                              (rank_of spans (2 ^ kappa)))
                          (sym (
                            ok_injective o (some spans) (
                              sym e
                              ∙ subst
                                  (λ i.
                                    admissible log2 (2 ^ kappa) (2 ^ i) widths ≡ ok (some spans))
                                  now e')))
                          (consider-beats (2 ^ kappa) (2 ^ j) spans best))
                ];
              },
            )
        | inr done ↦ (
          best,
          rw done,
          record {
            kept = Atop-refl best.rank;
            chosen = λ c. c;
            beats = λ j' spans ge lt le' e. absurd (past (two_pow_mono j j' ge) le' done);
          },
        )
      ]
    where
      past : {a b : ℕ} → 2 ^ j ≤ a → a ≤ b → leb (2 ^ j) b ≡ false → ⊥
      past h h' d = ground arith

  -- The same of a scan of the spans from `2 ^ kappa` on, over all the capacities.
  pub record IsSearch (kappa rounds : ℕ) (best after : Best) : Type 0 where
    pub kept : Atop after.rank best.rank
    pub chosen : IsChosen best → IsChosen after
    pub beats :
        (kappa' j : ℕ) (spans : List ℕ)
        → kappa ≤ kappa'
        → kappa' < kappa + rounds
        → 2 ^ kappa' ≤ 4
        → 2 ^ j ≤ prod widths
        → admissible log2 (2 ^ kappa') (2 ^ j) widths ≡ ok (some spans)
        → Atop after.rank (rank_of spans (2 ^ kappa'))

  pub scan_spans-IsSearch :
      (rounds kappa : ℕ) (best : Best)
      → (after : Best) × (scan_spans log2 widths rounds kappa best ≡ ok after)
        × IsSearch kappa rounds best after
  unfolding scan_spans
  scan_spans-IsSearch zero kappa best = (
    best,
    refl,
    record {
      kept = Atop-refl best.rank;
      chosen = λ c. c;
      beats = λ kappa' j spans ge lt le le' e. absurd (omega arith);
    },
  )
  scan_spans-IsSearch (suc rounds) kappa best = elim (Bool-cases (leb (2 ^ kappa) 4)) [
    | inl more ↦
        let (mid, e, s) =
          scan_capacities-IsScan kappa (prod widths + 1) 0 best (leb→le (2 ^ kappa) 4 more) in
        let (after, e', r) = scan_spans-IsSearch rounds (suc kappa) mid in
        (
          after,
          rw (more, e) e',
          record {
            kept = Atop-trans after.rank mid.rank best.rank r.kept s.kept;
            chosen = λ c. r.chosen (s.chosen c);
            beats = λ kappa' j spans ge lt le le' e'. elim (dec_lt kappa kappa') [
              | yes later ↦ r.beats kappa' j spans (omega arith) (omega arith) le le' e'
              | no last ↦
                  let now : kappa ≡ kappa' = omega arith in
                  Atop-trans after.rank mid.rank (rank_of spans (2 ^ kappa')) r.kept (
                    subst
                      (λ i.
                        admissible log2 (2 ^ i) (2 ^ j) widths ≡ ok (some spans)
                        → Atop mid.rank (rank_of spans (2 ^ i)))
                      now (s.beats j spans (omega arith) (omega (arith, lt-two_pow j, le')) le') e')
            ];
          },
        )
    | inr done ↦ (
      best,
      rw done,
      record {
        kept = Atop-refl best.rank;
        chosen = λ c. c;
        beats =
            λ kappa' j spans ge lt le le' e. absurd (past (two_pow_mono kappa kappa' ge) le done);
      },
    )
  ]
    where
      past : {a : ℕ} → 2 ^ kappa ≤ a → a ≤ 4 → leb (2 ^ kappa) 4 ≡ false → ⊥
      past h h' d = ground arith
