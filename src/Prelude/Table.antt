-- ===== src/Prelude/Table.antt =====
-- A test of every number below a bound, by evaluation.
use cuttle.Prelude.{
  ℕ, zero, suc, ◌<◌, ◌≡◌, Bool, true, false, if◌then◌else◌, arith, Bool-cases, lt_or_eq_or_lt, inl,
  inr, ap, ◌∙◌,
}

unfoldable pub every_below : (ℕ → Bool) → ℕ → Bool
every_below p zero = true
every_below p (suc n) = let rest = every_below p n in if p n then rest else false

pub every_below_lem : (p : ℕ → Bool) (n : ℕ) → every_below p n ≡ true → (x : ℕ) → x < n → p x ≡ true
unfolding every_below
every_below_lem p zero e x h = absurd (omega arith)
every_below_lem p (suc n) e x h = elim (Bool-cases (p n)) [
  | inl good ↦ elim (lt_or_eq_or_lt x n) [
    | inl lt ↦ every_below_lem p n (rw good at e) x lt
    | inr (inl same) ↦ ap p same ∙ good
    | inr (inr gt) ↦ absurd (omega arith)
  ]
  | inr bad ↦ let no : false ≡ true = rw bad at e in cc
]
