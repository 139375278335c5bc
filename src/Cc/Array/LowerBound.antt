-- ===== src/Cc/Array/LowerBound.antt =====
-- `ccarray_lowerbound` on a sorted range: the first item that does not come before the value.
use Prim.Native.Nat.{Ordering}
use cuttle.Prelude.{
  ℕ, zero, suc, ◌+◌, ◌-◌, ◌/◌, ◌≤◌, ◌<◌, ◌≡◌, refl, sym, ap, ◌∙◌, List, ◌≢◌, ◌⊎◌, some, arith,
  lt→ltb, length, get_elem?, lt_or_eq_or_lt, inl, inr,
}
use cuttle.Cc.Memory.{get_elem?-lt}
use cuttle.Cc.Array.{Array, halve, step_back, lower_bound}
use cuttle.Cc.Array.Model.{IsValid}

-- How the items from `beg` to `end` compare with the value: none that comes after it stands before
-- one that does not, and none that comes before it stands behind one that does not.
pub record IsSorted {ℓ κ} {A : Type ℓ} {V : Type κ} (cmp : A → V → Ordering) (value : V)
    (b : List A) (beg end : ℕ) : Type ℓ where
  pub before :
      (i j : ℕ) (x y : A)
      → beg ≤ i
      → i < j
      → j < end
      → get_elem? b i ≡ some x
      → get_elem? b j ≡ some y
      → cmp y value ≡ Ordering.lt
      → cmp x value ≡ Ordering.lt
  pub after :
      (i j : ℕ) (x y : A)
      → beg ≤ i
      → i < j
      → j < end
      → get_elem? b i ≡ some x
      → get_elem? b j ≡ some y
      → cmp x value ≡ Ordering.gt
      → cmp y value ≡ Ordering.gt

Ordering-cases : (o : Ordering) → (o ≡ Ordering.lt) ⊎ ((o ≡ Ordering.eq) ⊎ (o ≡ Ordering.gt))
Ordering-cases Ordering.lt = inl refl
Ordering-cases Ordering.eq = inr (inl refl)
Ordering-cases Ordering.gt = inr (inr refl)

module _ {ℓ κ} {A : Type ℓ} {V : Type κ} (cmp : A → V → Ordering) (value : V) (b : List A) where
  -- No item from `lo` to `hi` compares as `o`.
  abbrev pub Without : Ordering → ℕ → ℕ → Type ℓ
  Without o lo hi = (j : ℕ) (x : A) → lo ≤ j → j < hi → get_elem? b j ≡ some x → cmp x value ≢ o

  abbrev pub AllBefore : ℕ → ℕ → Type ℓ
  AllBefore lo hi =
      (j : ℕ) (x : A) → lo ≤ j → j < hi → get_elem? b j ≡ some x → cmp x value ≡ Ordering.lt

  halve_done : (fuel beg : ℕ) → halve cmp value b fuel beg 0 ≡ some beg
  unfolding halve
  halve_done zero beg = refl
  halve_done (suc fuel) beg = refl

  module _ (fuel beg len : ℕ) (x : A) (more : 0 < len)
      (at : get_elem? b (beg + len / 2) ≡ some x) where
    halve_eq :
        cmp x value ≡ Ordering.eq → halve cmp value b (suc fuel) beg len ≡ some (beg + len / 2)
    unfolding halve
    halve_eq e = rw (lt→ltb 0 len more, at, e)

    halve_gt :
        cmp x value ≡ Ordering.gt
        → halve cmp value b (suc fuel) beg len ≡ halve cmp value b fuel beg (len / 2)
    unfolding halve
    halve_gt e = rw (lt→ltb 0 len more, at, e)

    halve_lt :
        cmp x value ≡ Ordering.lt
        → halve cmp value b (suc fuel) beg len
          ≡ halve cmp value b fuel (beg + len / 2 + 1) (len - (len / 2 + 1))
    unfolding halve
    halve_lt e = rw (lt→ltb 0 len more, at, e)

  module _ (lo hi : ℕ) (inside : hi ≤ length b) (sorted : IsSorted cmp value b lo hi) where
    abbrev Splits : ℕ → Type ℓ
    Splits r = (lo ≤ r) × (r ≤ hi) × Without Ordering.gt lo r × Without Ordering.lt r hi

    at_item :
        (j m : ℕ) (x y : A)
        → j ≡ m
        → get_elem? b m ≡ some x
        → get_elem? b j ≡ some y
        → cmp y value ≡ cmp x value
    at_item j m x y e at at' = cc (ap (get_elem? b) e)

    not_before :
        (m : ℕ) (x : A)
        → lo ≤ m
        → get_elem? b m ≡ some x
        → cmp x value ≢ Ordering.lt
        → Without Ordering.lt m hi
    not_before m x l at ne j y p q at' bad = elim (lt_or_eq_or_lt m j) [
      | inl lt ↦ ne (sorted.before m j x y l lt q at at' bad)
      | inr (inl e) ↦ ne (sym (at_item j m x y (sym e) at at') ∙ bad)
      | inr (inr gt) ↦ absurd (omega arith)
    ]

    not_after :
        (m : ℕ) (x : A)
        → m < hi
        → get_elem? b m ≡ some x
        → cmp x value ≢ Ordering.gt
        → Without Ordering.gt lo (m + 1)
    not_after m x h at ne j y p q at' bad = elim (lt_or_eq_or_lt j m) [
      | inl lt ↦ ne (sorted.after j m y x p lt h at' at bad)
      | inr (inl e) ↦ ne (sym (at_item j m x y e at at') ∙ bad)
      | inr (inr gt) ↦ absurd (omega arith)
    ]

    halve-Splits :
        (fuel beg len : ℕ)
        → len ≤ fuel
        → lo ≤ beg
        → beg + len ≤ hi
        → Without Ordering.gt lo beg
        → Without Ordering.lt (beg + len) hi
        → (r : ℕ) × (halve cmp value b fuel beg len ≡ some r) × Splits r
    halve-Splits fuel beg zero f l h below above =
        (beg, halve_done fuel beg, (l, omega arith, below, λ j x p q. above j x (omega arith) q))
    halve-Splits zero beg (suc len) f l h below above = absurd (omega arith)
    halve-Splits (suc fuel) beg (suc len) f l h below above =
        let n : ℕ = suc len in
        let mid : ℕ = beg + n / 2 in
        let (x, at) = get_elem?-lt b mid (omega arith) in
        let more : 0 < n = omega arith in
        elim (Ordering-cases (cmp x value)) [
          | inl e ↦
              let (r, run, s) =
                halve-Splits fuel (mid + 1) (n - (n / 2 + 1)) (omega arith) (omega arith)
                  (omega arith) (not_after mid x (omega arith) at (λ g. cc))
                  (λ j y p q. above j y (omega arith) q) in
              (r, halve_lt fuel beg n x more at e ∙ run, s)
          | inr (inl e) ↦ (
            mid,
            halve_eq fuel beg n x more at e,
            (
              omega arith,
              omega arith,
              λ j y p q. not_after mid x (omega arith) at (λ g. cc) j y p (omega arith),
              not_before mid x (omega arith) at (λ g. cc),
            ),
          )
          | inr (inr e) ↦
              let (r, run, s) =
                halve-Splits fuel beg (n / 2) (omega arith) l (omega arith) below
                  (not_before mid x (omega arith) at (λ g. cc)) in
              (r, halve_gt fuel beg n x more at e ∙ run, s)
        ]

    abbrev pub IsLowerBound : ℕ → Type ℓ
    IsLowerBound r = (lo ≤ r) × (r ≤ hi) × AllBefore lo r × Without Ordering.lt r hi

    all_before :
        (m : ℕ) (x : A)
        → m < hi
        → get_elem? b m ≡ some x
        → cmp x value ≡ Ordering.lt
        → AllBefore lo (m + 1)
    all_before m x h at e j y p q at' = elim (lt_or_eq_or_lt j m) [
      | inl lt ↦ sorted.before j m y x p lt h at' at e
      | inr (inl same) ↦ at_item j m x y same at at' ∙ e
      | inr (inr gt) ↦ absurd (omega arith)
    ]

    step_back_lem :
        (back : ℕ)
        → Splits (lo + back)
        → (r : ℕ) × (step_back cmp value b lo back ≡ some r) × IsLowerBound r
    unfolding step_back
    step_back_lem zero s = (
      lo,
      refl,
      (
        omega arith,
        omega (arith, s.1),
        λ j x p q. absurd (omega arith),
        λ j x p q. s.3 j x (omega arith) q,
      ),
    )
    step_back_lem (suc back) s =
        let m : ℕ = lo + back in
        let below : m < hi = omega (arith, s.1) in
        let (x, at) = get_elem?-lt b m (omega arith) in
        let next : lo + suc back ≡ m + 1 = omega arith in
        elim (Ordering-cases (cmp x value)) [
          | inl e ↦ (
            lo + suc back,
            rw (at, e),
            (omega arith, s.1, λ j y p q. all_before m x below at e j y p (omega arith), s.3),
          )
          | inr (inl e) ↦
              let (r, run, t) = step_back_lem back (
                omega arith,
                omega arith,
                λ j y p q. s.2 j y p (omega arith),
                not_before m x (omega arith) at (λ g. cc),
              ) in
              (r, rw (at, e) run, t)
          | inr (inr e) ↦ absurd (s.2 m x (omega arith) (omega arith) at e)
        ]

module _ {ℓ κ} {A : Type ℓ} {V : Type κ} (cmp : A → V → Ordering) (value : V) (c : Array A) where
  -- On a range of a valid array that is sorted for the comparison, `lower_bound` ends without
  -- leaving the block, at a place in the range: every item before it comes before the value, and
  -- none from it on does.
  pub lower_bound_lem :
      (beg end : ℕ)
      → IsValid c
      → beg ≤ end
      → end ≤ c.size
      → IsSorted cmp value c.items beg end
      → (r : ℕ) × (lower_bound cmp value c beg end ≡ some r)
        × (beg ≤ r)
        × (r ≤ end)
        × AllBefore cmp value c.items beg r
        × Without cmp value c.items Ordering.lt r end
  unfolding lower_bound
  lower_bound_lem beg end v le in_size sorted =
      let inside : end ≤ length c.items = omega arith in
      let (r, run, s) =
        halve-Splits cmp value c.items beg end inside sorted (end - beg) beg (end - beg)
          (omega arith) (omega arith) (omega arith) (λ j x p q. absurd (omega arith))
          (λ j x p q. absurd (omega arith)) in
      let whole : beg + (r - beg) ≡ r = omega (arith, s.0) in
      let (r', run', t) =
        step_back_lem cmp value c.items beg end inside sorted (r - beg) (rw whole s) in
      (r', rw run run', t.0, t.1, t.2, t.3)
