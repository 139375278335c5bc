-- ===== src/Cothread/Coroutine/Stack.antt =====
-- The stack of a coroutine lies in its block.
use cuttle.Prelude.{
  ℕ, ◌+◌, ◌-◌, ◌%◌, ◌^◌, ◌≤◌, ◌<◌, ◌≡◌, ap, ◌∙◌, sym, Option, none, some, Bool, true, false, ltb,
  arith, Bool-cases, Option-cases, inl, inr, ◌>>=◌, some_eq, subst,
}
use cuttle.Cothread.Coroutine.{Frame, co_create, frame, whole_words, coro_size}

-- The record, and behind it the stack, lie in the `size` bytes from the block on, with a word to
-- spare, and the stack has at least `least` bytes less this word.
pub record Fits (record_size least block size : ℕ) (f : Frame) : Type 0 where
  pub base : f.at ≡ block
  pub header : f.at + record_size ≤ f.stack
  pub inside : f.stack + f.ss_size + 8 ≤ block + size
  pub roomy : least ≤ f.ss_size + 8

module _ (min_size record_size : ℕ) where
  made-Fits :
      (block size least : ℕ)
      → 8 ≤ least
      → least + coro_size record_size ≤ size
      → (f : Frame) → f.at ≡ block
      → f.stack ≡ block + coro_size record_size
      → f.ss_size ≡ size - coro_size record_size - 8
      → Fits record_size least block size f
  made-Fits block size least word room f a b c = record {
    base = a;
    header = omega arith;
    inside = omega arith;
    roomy = omega arith;
  }

  frame-Fits :
      (context : Bool) (block size alloc_size least : ℕ) (f : Frame)
      → 8 ≤ least
      → least + coro_size record_size ≤ size
      → frame min_size record_size context block size alloc_size ≡ some f
      → Fits record_size least block size f × (f.alloc_size ≡ alloc_size)
  unfolding frame
  frame-Fits false block size alloc_size least f word room e = cc
  frame-Fits true block size alloc_size least f word room e =
      let same = some_eq e in
      (
        made-Fits block size least word room f (sym (ap (λ (g : Frame). g.at) same))
            (sym (ap (λ (g : Frame). g.stack) same)) (sym (ap (λ (g : Frame). g.ss_size) same)),
        sym (ap (λ (g : Frame). g.alloc_size) same),
      )

  longer :
      (least block m n : ℕ) (f : Frame)
      → m ≤ n
      → Fits record_size least block m f
      → Fits record_size least block n f
  longer least block m n f k h = record {
    base = h.base;
    header = h.header;
    inside = (let i = h.inside in omega arith);
    roomy = h.roomy;
  }

  -- A stack that is given: what `co_create` makes of it stays in it.
  pub co_create-given :
      (context : Bool) (alloc : ℕ → Option ℕ) (block size : ℕ) (f : Frame)
      → 8 ≤ min_size
      → co_create min_size record_size context alloc (some block) size ≡ some f
      → Fits record_size min_size block size f
  unfolding co_create frame
  co_create-given context alloc block size f word e =
      elim (Bool-cases (ltb (whole_words size) (min_size + coro_size record_size))) [
        | inl k ↦ let no : none ≡ some f = rw k at e in cc
        | inr k ↦
            longer min_size block (whole_words size) size f (omega arith)
              (frame-Fits context block (whole_words size) 0 min_size f word (ground arith)
                (rw k at e)).0
      ]

  ge_of : {a b : ℕ} → ltb a b ≡ false → b ≤ a
  ge_of h = ground arith

  from_block :
      (context : Bool) (alloc : ℕ → Option ℕ) (size : ℕ) (f : Frame)
      → 8 ≤ min_size
      → size + coro_size record_size < 2 ^ 64
      → min_size ≤ whole_words size
      → (alloc ((whole_words size + coro_size record_size) % 2 ^ 64) >>= (λ block.
          frame min_size record_size context block
            ((whole_words size + coro_size record_size) % 2 ^ 64)
            ((whole_words size + coro_size record_size) % 2 ^ 64)))
        ≡ some f
      → (block : ℕ) × (alloc f.alloc_size ≡ some block)
        × Fits record_size min_size block f.alloc_size f
  from_block context alloc size f word small least e =
      let whole = (whole_words size + coro_size record_size) % 2 ^ 64 in
      elim (Option-cases (alloc whole)) [
        | inl n ↦ let no : none ≡ some f = rw n at e in cc
        | inr (block, n) ↦
            let (fits, same) =
              frame-Fits context block whole whole min_size f word (omega arith) (rw n at e) in
            (
              block,
              ap alloc same ∙ n,
              subst (λ (m : ℕ). Fits record_size min_size block m f) (sym same) fits,
            )
      ]

  -- Where the least size of a stack is a word or more and the sizes do not wrap, a coroutine with
  -- a stack of its own has its record and its stack in the block that the allocator gives for the
  -- size asked for, with a word to spare, and at least the least size for the stack and this word.
  pub co_create-own :
      (context : Bool) (alloc : ℕ → Option ℕ) (size : ℕ) (f : Frame)
      → 8 ≤ min_size
      → size + coro_size record_size < 2 ^ 64
      → co_create min_size record_size context alloc none size ≡ some f
      → (block : ℕ) × (alloc f.alloc_size ≡ some block)
        × Fits record_size min_size block f.alloc_size f
  unfolding co_create frame
  co_create-own context alloc size f word small e =
      elim (Bool-cases (ltb (whole_words size) min_size)) [
        | inl k ↦ let no : none ≡ some f = rw k at e in cc
        | inr k ↦ from_block context alloc size f word small (ge_of k) (rw k at e)
      ]
