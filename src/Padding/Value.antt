-- ===== src/Padding/Value.antt =====
-- The padding of a value tensor, and the slice that undoes it.
use rola.Prelude.{
  ==_iff, All, Bool-cases, List, [], ap, arith, false, inl, inr, length, length-append,
  length-replicate, ltb, map, min, ok, refl, replicate, suc, sym, take, take-append, zero, ℕ, ◌++◌,
  ◌-◌, ◌==◌, ◌∙◌, ◌∷◌, ◌≡◌, ◌≤◌,
}
use rola.Padding.{Tensor, pad_last_dim, pad_v, slice_y}

-- The rows of a tensor have its last dimension.
abbrev pub IsShaped {ℓ} : {V : Type ℓ} → Tensor V → Type 0
IsShaped t = All (λ row. length row ≡ t.last_dim) t.rows

module _ {ℓ} {V : Type ℓ} (zero_value : V) where
  rows_back :
      (d width : ℕ) (rows : List (List V))
      → All (λ row. length row ≡ d) rows
      → map (take d) (map (λ row. row ++ replicate (width - d) zero_value) rows) ≡ rows
  rows_back d width [] p = refl
  rows_back d width (row ∷ rows) p = λ i.
      (ap (λ n. take n (row ++ replicate (width - d) zero_value)) (sym p.0)
          ∙ take-append row (replicate (width - d) zero_value))
        i
      ∷ rows_back d width rows p.1 i

  rows_whole :
      (d : ℕ) (rows : List (List V)) → All (λ row. length row ≡ d) rows → map (take d) rows ≡ rows
  rows_whole d [] p = refl
  rows_whole d (row ∷ rows) p = λ i. take_whole d row p.0 i ∷ rows_whole d rows p.1 i
    where
      take_whole : (n : ℕ) (xs : List V) → length xs ≡ n → take n xs ≡ xs
      take_whole zero [] e = refl
      take_whole zero (x ∷ xs) e = absurd (omega (arith, e))
      take_whole (suc n) [] e = refl
      take_whole (suc n) (x ∷ xs) e = ap (◌∷◌ x) (take_whole n xs (omega (arith, e)))

  rows_wide :
      (d width : ℕ) (rows : List (List V))
      → d ≤ width
      → All (λ row. length row ≡ d) rows
      → All (λ row. length row ≡ width) (map (λ row. row ++ replicate (width - d) zero_value) rows)
  rows_wide d width [] le p = tt
  rows_wide d width (row ∷ rows) le p = (
    omega (
      arith,
      length-append row (replicate (width - d) zero_value),
      length-replicate (width - d) zero_value,
      p.0,
    ),
    rows_wide d width rows le p.1,
  )

  -- A tensor that is no wider than the padded width is padded to it, row by row, and the slice at
  -- its own width gives it back.
  pub slice_y-pad_v :
      (v : Tensor V) (dv : ℕ)
      → IsShaped v
      → v.last_dim ≤ dv
      → (padded : Tensor V) × (pad_v zero_value v dv ≡ ok padded)
        × (padded.last_dim ≡ dv)
        × IsShaped padded
        × (slice_y padded v.last_dim ≡ v)
  unfolding pad_v pad_last_dim slice_y
  slice_y-pad_v v dv shaped le = elim (Bool-cases (v.last_dim == dv)) [
    | inl same ↦ (
      v,
      rw same refl,
      (==_iff v.last_dim dv).0 same,
      shaped,
      λ i. record { last_dim = whole i; rows = rows_whole v.last_dim v.rows shaped i },
    )
    | inr wider ↦ (
      record {
        last_dim = dv;
        rows = map (λ row. row ++ replicate (dv - v.last_dim) zero_value) v.rows;
      },
      rw (wider, not_narrower) refl,
      refl,
      rows_wide v.last_dim dv v.rows le shaped,
      λ i. record { last_dim = least i; rows = rows_back v.last_dim dv v.rows shaped i },
    )
  ]
    where
      whole : min v.last_dim v.last_dim ≡ v.last_dim
      whole = omega arith

      least : min v.last_dim dv ≡ v.last_dim
      least = omega arith

      not_narrower : ltb dv v.last_dim ≡ false
      not_narrower = ground arith
