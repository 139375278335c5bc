-- ===== src/Cothread/Walk/Found.antt =====
-- Lists in which each item stands once, and their beginnings.
use cuttle.Prelude.{
  ℕ, zero, suc, ◌+◌, ◌-◌, ◌<◌, ◌≡◌, refl, ap, ◌∙◌, List, [], ◌∷◌, ◌++◌, Bool, true, false, ◌||◌,
  ◌==◌, length, arith, take, length-append, append_assoc, Bool-cases, inl, inr, ◌⊎◌,
}
use cuttle.Cc.Links.{NotIn, Distinct}
use cuttle.Cothread.Walk.Scan.{elem, fresh}

pub apart : (a b : ℕ) → a < b → (a == b) ≡ false
apart a b h = ground arith

pub same : (a b : ℕ) → a ≡ b → (a == b) ≡ true
same a b h = ground arith

pub fresh_seen :
    (c : ℕ) (seen cs : List ℕ) → elem c seen ≡ true → fresh seen (c ∷ cs) ≡ fresh seen cs
unfolding fresh
fresh_seen c seen cs e = rw (fresh, e)

pub fresh_new :
    (c : ℕ) (seen cs : List ℕ)
    → elem c seen ≡ false
    → fresh seen (c ∷ cs) ≡ c ∷ fresh (seen ++ (c ∷ [])) cs
unfolding fresh
fresh_new c seen cs e = rw (fresh, e)

take_next :
    (n m c : ℕ) (xs ys : List ℕ)
    → n - length xs ≡ suc m
    → (xs ++ (c ∷ [])) ++ take (n - length (xs ++ (c ∷ []))) ys
      ≡ xs ++ take (n - length xs) (c ∷ ys)
take_next n m c xs ys e =
    let one : n - length (xs ++ (c ∷ [])) ≡ m = omega (arith, length-append xs (c ∷ [])) in
    rw (one, e) (append_assoc xs (c ∷ []) (take m ys))

pub take_more :
    (n c : ℕ) (xs ys : List ℕ)
    → length xs < n
    → (xs ++ (c ∷ [])) ++ take (n - length (xs ++ (c ∷ []))) ys
      ≡ xs ++ take (n - length xs) (c ∷ ys)
take_more n c xs ys h = take_next n (n - length xs - 1) c xs ys (omega arith)

pub take_last :
    (n c : ℕ) (xs ys : List ℕ)
    → length xs + 1 ≡ n
    → xs ++ (c ∷ []) ≡ xs ++ take (n - length xs) (c ∷ ys)
take_last n c xs ys h = let one : n - length xs ≡ 1 = omega arith in rw one refl

pub elem-append : (c x : ℕ) (xs : List ℕ) → elem c (xs ++ (x ∷ [])) ≡ (elem c xs || (c == x))
elem-append c x [] = ground arith
elem-append c x (y ∷ xs) = ground (arith, elem-append c x xs)

elem-NotIn : (c : ℕ) (xs : List ℕ) → elem c xs ≡ false → NotIn c xs
elem-NotIn c [] e = tt
elem-NotIn c (x ∷ xs) e = (ground arith, elem-NotIn c xs (ground arith))

differ : (c x : ℕ) (xs : List ℕ) → elem c xs ≡ true → elem x xs ≡ false → (c == x) ≡ false
differ c x xs e k = elim (Bool-cases (c == x)) [
  | inl b ↦ let h : c ≡ x = ground arith in cc
  | inr b ↦ b
]

==_sym : (c x : ℕ) → (c == x) ≡ (x == c)
==_sym c x = ground arith

elem_last :
    (c x : ℕ) (xs : List ℕ) (b : Bool) → (elem c xs || (c == x)) ≡ b → elem c (xs ++ (x ∷ [])) ≡ b
elem_last c x xs b h = elem-append c x xs ∙ h

-- What is fresh has not been seen, and stands once.
fresh-apart : (c : ℕ) (seen cs : List ℕ) → elem c seen ≡ true → elem c (fresh seen cs) ≡ false
unfolding fresh
fresh-apart c seen [] e = refl
fresh-apart c seen (x ∷ xs) e = elim (Bool-cases (elem x seen)) [
  | inl k ↦ rw (fresh_seen x seen xs k) (fresh-apart c seen xs e)
  | inr k ↦ rw (fresh_new x seen xs k) (
      rw (differ c x seen e k)
        (fresh-apart c (seen ++ (x ∷ [])) xs (elem_last c x seen true (rw e refl))))
]

pub fresh-Distinct : (seen cs : List ℕ) → Distinct (fresh seen cs)
unfolding fresh
fresh-Distinct seen [] = tt
fresh-Distinct seen (x ∷ xs) = elim (Bool-cases (elem x seen)) [
  | inl k ↦ rw (fresh_seen x seen xs k) (fresh-Distinct seen xs)
  | inr k ↦ rw (fresh_new x seen xs k) (
    elem-NotIn x _ (
        fresh-apart x (seen ++ (x ∷ [])) xs (elem_last x x seen true (rw (k, same x x refl) refl))),
    fresh-Distinct (seen ++ (x ∷ [])) xs,
  )
]

-- Nothing is lost or made up.
pub elem-fresh :
    (c : ℕ) (seen cs : List ℕ) → elem c seen ≡ false → elem c (fresh seen cs) ≡ elem c cs
unfolding fresh
elem-fresh c seen [] e = refl
elem-fresh c seen (x ∷ xs) e = elim (Bool-cases (elem x seen)) [
  | inl k ↦
      rw (fresh_seen x seen xs k) (rw (==_sym c x ∙ differ x c seen k e) (elem-fresh c seen xs e))
  | inr k ↦ rw (fresh_new x seen xs k) (elim (Bool-cases (c == x)) [
    | inl b ↦ rw b refl
    | inr b ↦ rw b (elem-fresh c (seen ++ (x ∷ [])) xs (elem_last c x seen false (rw (e, b) refl)))
  ])
]

pub Distinct-take : (n : ℕ) (xs : List ℕ) → Distinct xs → Distinct (take n xs)
Distinct-take zero xs d = tt
Distinct-take (suc n) [] d = tt
Distinct-take (suc n) (x ∷ xs) d = (NotIn-take n xs d.0, Distinct-take n xs d.1)
  where
    NotIn-take : (n : ℕ) (xs : List ℕ) → NotIn x xs → NotIn x (take n xs)
    NotIn-take zero xs o = tt
    NotIn-take (suc n) [] o = tt
    NotIn-take (suc n) (y ∷ xs) o = (o.0, NotIn-take n xs o.1)

pub elem-take_or_full :
    (c n : ℕ) (xs : List ℕ)
    → elem c xs ≡ true
    → (elem c (take n xs) ≡ true) ⊎ (length (take n xs) ≡ n)
elem-take_or_full c zero xs e = inr refl
elem-take_or_full c (suc n) [] e = cc
elem-take_or_full c (suc n) (x ∷ xs) e = elim (Bool-cases (c == x)) [
  | inl b ↦ inl (rw b refl)
  | inr b ↦ elim (elem-take_or_full c n xs (ground arith)) [
    | inl h ↦ inl (rw b h)
    | inr h ↦ inr (ap suc h)
  ]
]
