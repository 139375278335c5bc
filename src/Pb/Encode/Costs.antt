-- ===== src/Pb/Encode/Costs.antt =====
-- What calls that write cost: the bytes that they put on any stream with room for them.
use cuttle.Prelude.{ℕ, ◌+◌, ◌≤◌, ◌≡◌, ◌⊎◌, refl, ◌∙◌, Option, some, true, arith, inl, inr, ◌>>=◌}
use cuttle.Pb.Encode.{Streams}

module _ {Out : Type 0} (streams : Streams Out) (limit : Out → ℕ) where
  abbrev pub Room : Out → ℕ → Type 0
  Room o k = (streams.sizing o ≡ true) ⊎ (streams.written o + k ≤ limit o)

  -- A call that succeeds on every stream with room for `k` bytes, and puts `k` bytes there.
  abbrev pub Costs : (Out → Option Out) → ℕ → Type 0
  Costs f k =
      (o : Out)
      → Room o k
      → (o' : Out) × (f o ≡ some o')
        × (streams.written o' ≡ streams.written o + k)
        × (limit o' ≡ limit o)
        × (streams.sizing o' ≡ streams.sizing o)

  pub nothing-Costs : Costs some 0
  nothing-Costs o room = (o, refl, omega arith, refl, refl)

  pub same-Costs :
      (f g : Out → Option Out) (k : ℕ) → ((o : Out) → f o ≡ g o) → Costs g k → Costs f k
  same-Costs f g k same costs o room =
      let (o', run, more, bound, mode) = costs o room in (o', same o ∙ run, more, bound, mode)

  first-Room : (o : Out) (a b : ℕ) → Room o (a + b) → Room o a
  first-Room o a b (inl counts) = inl counts
  first-Room o a b (inr fits) = inr (omega arith)

  next-Room :
      (o o' : Out) (a b : ℕ)
      → streams.written o' ≡ streams.written o + a
      → limit o' ≡ limit o
      → streams.sizing o' ≡ streams.sizing o
      → Room o (a + b)
      → Room o' b
  next-Room o o' a b more bound mode (inl counts) = inl (mode ∙ counts)
  next-Room o o' a b more bound mode (inr fits) = inr (omega arith)

  pub then-Costs :
      (f g : Out → Option Out) (a b : ℕ)
      → Costs f a
      → Costs g b
      → Costs (λ o. f o >>= (λ o'. g o')) (a + b)
  then-Costs f g a b first next o room =
      let (o', run, more, bound, mode) = first o (first-Room o a b room) in
      let (o'', run', more', bound', mode') = next o' (next-Room o o' a b more bound mode room) in
      (o'', rw run run', omega arith, bound' ∙ bound, mode' ∙ mode)
