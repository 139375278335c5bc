-- ===== src/Cc/Links/Append.antt =====
-- A node linked in behind the last one.
use cuttle.Prelude.{
  ℕ, ◌≡◌, ◌≢◌, List, [], ◌∷◌, ◌++◌, Option, none, some, arith, refl, ◌∙◌, sym, subst,
}
use cuttle.Cc.Links.{Field, update, relink, back_or, NotIn, Distinct, Chain, update_self, update_ne}

-- The fields when `w` has been linked in behind `ps`.
abbrev pub prev_with : Field → ℕ → Option ℕ → List ℕ → Field
prev_with prev w b ps = update prev w (back_or b ps)

abbrev pub next_with : Field → ℕ → List ℕ → Field
next_with next w ps = relink (update next w none) (back_or none ps) (some w)

back_ne : (p q : ℕ) (ps : List ℕ) → p ≢ q → NotIn p ps → back_or (some q) ps ≢ some p
back_ne p q [] ne out = λ e. ne (ground arith)
back_ne p q (r ∷ ps) ne out = back_ne p r ps out.0 out.1

relink_ne : (f : Field) (o v : Option ℕ) (p : ℕ) → o ≢ some p → relink f o v p ≡ f p
unfolding relink
relink_ne f none v p h = refl
relink_ne f (some q) v p h = update_ne f q p v (λ e. h (ground arith))

-- The list is linked both ways again.
pub Chain-append :
    (prev next : Field) (b : Option ℕ) (w : ℕ) (ps : List ℕ)
    → NotIn w ps
    → Distinct ps
    → Chain prev next b ps
    → Chain (prev_with prev w b ps) (next_with next w ps) b (ps ++ (w ∷ []))
unfolding relink
Chain-append prev next b w [] out d c = (update_self prev w b, update_self next w none, tt)
Chain-append prev next b w (p ∷ []) out d c = (
  update_ne prev w p (some p) (λ e. out.0 (sym e)) ∙ c.0,
  update_self _ p (some w),
  (update_self prev w (some p), update_ne _ p w (some w) out.0 ∙ update_self next w none, tt),
)
Chain-append prev next b w (p ∷ q ∷ ps) out d c = (
  update_ne prev w p _ (λ e. out.0 (sym e)) ∙ c.0,
  relink_ne _ (back_or (some q) ps) (some w) p (back_ne p q ps d.0.0 d.0.1)
      ∙ update_ne next w p none (λ e. out.0 (sym e))
      ∙ c.1,
  Chain-append prev next (some p) w (q ∷ ps) out.1 d.1 c.2,
)

pub back_or-append : (b : Option ℕ) (w : ℕ) (ps : List ℕ) → back_or b (ps ++ (w ∷ [])) ≡ some w
back_or-append b w [] = refl
back_or-append b w (p ∷ ps) = back_or-append (some p) w ps

NotIn-append : (p w : ℕ) (ps : List ℕ) → p ≢ w → NotIn p ps → NotIn p (ps ++ (w ∷ []))
NotIn-append p w [] ne out = (ne, tt)
NotIn-append p w (q ∷ ps) ne out = (out.0, NotIn-append p w ps ne out.1)

pub Distinct-append : (w : ℕ) (ps : List ℕ) → NotIn w ps → Distinct ps → Distinct (ps ++ (w ∷ []))
Distinct-append w [] out d = (tt, tt)
Distinct-append w (p ∷ ps) out d =
    (NotIn-append p w ps (λ e. out.0 (sym e)) d.0, Distinct-append w ps out.1 d.1)

next-back :
    (prev next : Field) (b : Option ℕ) (p t : ℕ) (ps : List ℕ)
    → back_or (some p) ps ≡ some t
    → Chain prev next b (p ∷ ps)
    → next t ≡ none
next-back prev next b p t [] e c = let same : p ≡ t = cc in rw same at c.1
next-back prev next b p t (q ∷ ps) e c = next-back prev next (some p) q t ps e c.2

-- The same, with the last node `t` known: what the code writes.
pub Chain-append_last :
    (prev next : Field) (w q t : ℕ) (ps : List ℕ)
    → back_or (some q) ps ≡ some t
    → NotIn w (q ∷ ps)
    → Distinct (q ∷ ps)
    → Chain prev next none (q ∷ ps)
    → Chain
        (update prev w (some t))
        (update (update next w (next t)) t (some w))
        none
        ((q ∷ ps) ++ (w ∷ []))
unfolding relink
Chain-append_last prev next w q t ps e out d c =
    let base = Chain-append prev next none w (q ∷ ps) out d c in
    let moved =
      subst
        (λ o.
          Chain (update prev w o) (relink (update next w none) o (some w)) none
            ((q ∷ ps) ++ (w ∷ [])))
        e base in
    subst
      (λ o.
        Chain (update prev w (some t)) (update (update next w o) t (some w)) none
          ((q ∷ ps) ++ (w ∷ [])))
      (sym (next-back prev next none q t ps e c)) moved
