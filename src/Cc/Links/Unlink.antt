-- ===== src/Cc/Links/Unlink.antt =====
-- A node taken out of the list.
use cuttle.Prelude.{
  ℕ, ◌≡◌, ◌≢◌, List, [], ◌∷◌, ◌++◌, Option, none, some, arith, refl, ◌∙◌, sym, if◌then◌else◌, false,
}
use cuttle.Cc.Links.{
  Field, relink, front, back_or, NotIn, Distinct, Chain, update_self, update_ne, points_at,
  Chain-update_prev, Chain-update_next,
}

NotIn-left : (p : ℕ) (xs ys : List ℕ) → NotIn p (xs ++ ys) → NotIn p xs
NotIn-left p [] ys h = tt
NotIn-left p (x ∷ xs) ys h = (h.0, NotIn-left p xs ys h.1)

NotIn-right : (p : ℕ) (xs ys : List ℕ) → NotIn p (xs ++ ys) → NotIn p ys
NotIn-right p [] ys h = h
NotIn-right p (x ∷ xs) ys h = NotIn-right p xs ys h.1

NotIn-without : (p w : ℕ) (xs ys : List ℕ) → NotIn p (xs ++ (w ∷ ys)) → NotIn p (xs ++ ys)
NotIn-without p w [] ys h = h.1
NotIn-without p w (x ∷ xs) ys h = (h.0, NotIn-without p w xs ys h.1)

pub Distinct-without : (w : ℕ) (xs ys : List ℕ) → Distinct (xs ++ (w ∷ ys)) → Distinct (xs ++ ys)
Distinct-without w [] ys d = d.1
Distinct-without w (x ∷ xs) ys d = (NotIn-without x w xs ys d.0, Distinct-without w xs ys d.1)

-- What the links of a node in the list are.
pub links_of :
    (prev next : Field) (b : Option ℕ) (w : ℕ) (xs ys : List ℕ)
    → Chain prev next b (xs ++ (w ∷ ys))
    → (prev w ≡ back_or b xs) × (next w ≡ front ys)
links_of prev next b w [] ys c = (c.0, c.1)
links_of prev next b w (x ∷ xs) ys c = links_of prev next (some x) w xs ys c.2

abbrev NotAt : Option ℕ → List ℕ → Type 0
NotAt none ps = Unit
NotAt (some p) ps = NotIn p ps

Chain-relink_next :
    (prev next : Field) (b o v : Option ℕ) (ps : List ℕ)
    → NotAt o ps
    → Chain prev next b ps
    → Chain prev (relink next o v) b ps
unfolding relink
Chain-relink_next prev next b none v ps out c = c
Chain-relink_next prev next b (some p) v ps out c = Chain-update_next prev next b p v ps out c

-- The new first node points back at `b`.
Chain-rehead :
    (prev next : Field) (a b : Option ℕ) (ps : List ℕ)
    → Distinct ps
    → Chain prev next a ps
    → Chain (relink prev (front ps) b) next b ps
unfolding relink
Chain-rehead prev next a b [] d c = tt
Chain-rehead prev next a b (p ∷ ps) d c =
    (update_self prev p b, c.1, Chain-update_prev prev next (some p) p b ps d.0 c.2)

relink-front :
    (f : Field) (v : Option ℕ) (p : ℕ) (ys : List ℕ) → NotIn p ys → relink f (front ys) v p ≡ f p
unfolding relink
relink-front f v p [] out = refl
relink-front f v p (y ∷ ys) out = update_ne f y p v out.0

relink_back :
    (f : Field) (v : Option ℕ) (p q : ℕ) (xs : List ℕ)
    → p ≢ q
    → NotIn p xs
    → relink f (back_or (some q) xs) v p ≡ f p
unfolding relink
relink_back f v p q [] ne out = update_ne f q p v ne
relink_back f v p q (x ∷ xs) ne out = relink_back f v p x xs out.0 out.1

NotIn-sym : (w : ℕ) (xs ys : List ℕ) → Distinct (xs ++ (w ∷ ys)) → NotIn w xs
NotIn-sym w [] ys d = tt
NotIn-sym w (x ∷ xs) ys d =
    ((λ e. (NotIn-right x xs (w ∷ ys) d.0).0 (sym e)), NotIn-sym w xs ys d.1)

-- The links of the node that is taken out stay as they are.
pub relink_before :
    (f : Field) (v : Option ℕ) (w : ℕ) (xs ys : List ℕ)
    → Distinct (xs ++ (w ∷ ys))
    → relink f (back_or none xs) v w ≡ f w
unfolding relink
relink_before f v w [] ys d = refl
relink_before f v w (x ∷ xs) ys d =
    let out = NotIn-sym w (x ∷ xs) ys d in relink_back f v w x xs out.0 out.1

-- Without `w`, and with its neighbours linked to one another, the list is linked both ways.
pub Chain-unlink :
    (prev next : Field) (b : Option ℕ) (w : ℕ) (xs ys : List ℕ)
    → NotAt b ys
    → Distinct (xs ++ (w ∷ ys))
    → Chain prev next b (xs ++ (w ∷ ys))
    → Chain
        (relink prev (front ys) (back_or b xs))
        (relink next (back_or b xs) (front ys))
        b
        (xs ++ ys)
Chain-unlink prev next b w [] ys out d c =
    Chain-relink_next _ next b b (front ys) ys out (Chain-rehead prev next (some w) b ys d.1 c.2)
Chain-unlink prev next b w (x ∷ []) ys out d c = (
  relink-front prev (some x) x ys d.0.1 ∙ c.0,
  (unfold relink in update_self next x (front ys)),
  Chain-unlink prev next (some x) w [] ys d.0.1 d.1 c.2,
)
Chain-unlink prev next b w (x ∷ y ∷ xs) ys out d c =
    let apart = NotIn-right x xs (w ∷ ys) d.0.1 in
    (
      relink-front prev _ x ys apart.1 ∙ c.0,
      relink_back next (front ys) x y xs d.0.0 (NotIn-left x xs (w ∷ ys) d.0.1) ∙ c.1,
      Chain-unlink prev next (some x) w (y ∷ xs) ys apart.1 d.1 c.2,
    )

-- The two ends of the list without `w`, as the code finds them.
pub front-unlink :
    (w : ℕ) (xs ys : List ℕ)
    → Distinct (xs ++ (w ∷ ys))
    → (if points_at (front (xs ++ (w ∷ ys))) w then front ys else front (xs ++ (w ∷ ys)))
      ≡ front (xs ++ ys)
front-unlink w [] ys d = ground arith
front-unlink w (x ∷ xs) ys d = ground (arith, NotIn-right x xs (w ∷ ys) d.0)

back_ne : (w y : ℕ) (ys : List ℕ) → w ≢ y → NotIn w ys → points_at (back_or (some y) ys) w ≡ false
back_ne w y [] ne out = ground arith
back_ne w y (z ∷ ys) ne out = back_ne w z ys out.0 out.1

pub back-unlink :
    (b : Option ℕ) (w : ℕ) (xs ys : List ℕ)
    → Distinct (xs ++ (w ∷ ys))
    → (if points_at (back_or b (xs ++ (w ∷ ys))) w
        then back_or b xs
        else back_or b (xs ++ (w ∷ ys)))
      ≡ back_or b (xs ++ ys)
back-unlink b w [] [] d = ground arith
back-unlink b w [] (y ∷ ys) d = rw (back_ne w y ys d.0.0 d.0.1)
back-unlink b w (x ∷ xs) ys d = back-unlink (some x) w xs ys d.1
