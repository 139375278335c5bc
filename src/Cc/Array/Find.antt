-- ===== src/Cc/Array/Find.antt =====
-- The linear searches, and the removal of an item that they find.
use cuttle.Prelude.{
  ℕ, zero, suc, ◌+◌, ◌≤◌, ◌≡◌, refl, sym, ap, ◌∙◌, List, [], ◌∷◌, some, arith, ltb, if◌then◌else◌,
  length, take, drop, Bool-cases, inl, inr, Bool,
}
use cuttle.Cc.Memory.{get_elem?-lt, drop-get_elem?}
use cuttle.Cc.Array.{Array, find_from, find, erase_item}
use cuttle.Cc.Array.Model.{contents, IsValid, length-contents}
use cuttle.Cc.Array.Remove.{remove_at, erase_lem}

module _ {ℓ} {A : Type ℓ} (same : A → Bool) where
  -- The position of the first match, the length if there is none.
  unfoldable pub index_of : List A → ℕ
  index_of [] = 0
  index_of (x ∷ xs) = if same x then 0 else suc (index_of xs)

  unfoldable pub erase_first : List A → List A
  erase_first [] = []
  erase_first (x ∷ xs) = if same x then xs else x ∷ erase_first xs

  remove_at-index_of : (xs : List A) → remove_at (index_of xs) xs ≡ erase_first xs
  unfolding index_of erase_first remove_at
  remove_at-index_of [] = refl
  remove_at-index_of (x ∷ xs) = ground (arith, remove_at-index_of xs)

  erase_first-none : (xs : List A) → length xs ≤ index_of xs → erase_first xs ≡ xs
  unfolding index_of erase_first
  erase_first-none [] h = refl
  erase_first-none (x ∷ xs) h = ground (arith, erase_first-none xs)

  find_from_lem :
      (b : List A) (left pos : ℕ)
      → pos + left ≤ length b
      → find_from same b left pos ≡ some (pos + index_of (take left (drop pos b)))
  unfolding find_from index_of
  find_from_lem b zero pos h = ap some (omega arith)
  find_from_lem b (suc left) pos h =
      let (x, e) = get_elem?-lt b pos (omega arith) in
      rw (e, drop-get_elem? pos b x e)
        (elim (Bool-cases (same x)) [
          | inl hit ↦ rw hit (ap some (omega arith))
          | inr miss ↦
              rw (miss, find_from_lem b left (pos + 1) (omega arith)) (ap some (omega arith))
        ])

  -- On a valid array, `find` gives the place of the first match, or the size where there is none.
  pub find_lem : (c : Array A) → IsValid c → find same c ≡ some (index_of (contents c))
  unfolding find
  find_lem c h = find_from_lem c.items c.size 0 (omega arith) ∙ ap some (omega arith)

  -- On a valid array, `erase_item` takes out the first item that is the same as the value, and
  -- only that; the result is the place where it stood, or the size where there is none.
  pub erase_item_lem :
      (c : Array A)
      → IsValid c
      → (r : Array A) × (erase_item same c ≡ some (r, index_of (contents c)))
        × (contents r ≡ erase_first (contents c))
        × IsValid r
        × (r.capacity ≡ c.capacity)
  unfolding erase_item
  erase_item_lem c h = elim (Bool-cases (ltb (index_of (contents c)) c.size)) [
    | inl hit ↦
        let (r, e, now, valid, cap) = erase_lem c (index_of (contents c)) h in
        (r, rw (find_lem c h, hit, e), now ∙ rw hit (remove_at-index_of (contents c)), valid, cap)
    | inr miss ↦ (
      c,
      rw (find_lem c h, miss),
      sym (erase_first-none (contents c) (ground (arith, length-contents c (omega arith)))),
      h,
      refl,
    )
  ]
