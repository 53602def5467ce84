-- ===== src/Avl/Tree.antt =====
-- What the tree of lib/avl.bpf.h stands for: a binary tree of nodes, read in order, and a place in
-- such a tree, which is the way from it up to the root.
use ghost_userspace_o.Base.{
  ℕ, suc, ◌+◌, ◌≤◌, ◌≡◌, ◌≢◌, refl, sym, ap, ◌∙◌, ◌⊎◌, inl, inr, ==_iff, List, [], ◌∷◌, ◌++◌, count,
  count-append, arith,
}
use Prim.Native.Nat.{max}
use mathlib.Core.List.{append_assoc, append-nil}

pub data Tree : Type 0 where
  leaf : Tree
  node : Tree → ℕ → Tree → Tree

-- The way up from a subtree on the left or on the right of a node.
pub data Place : Type 0 where
  top : Place
  left_of : Place → ℕ → Tree → Place
  right_of : Tree → ℕ → Place → Place

abbrev pub inorder : Tree → List ℕ
inorder leaf = []
inorder (node l e r) = inorder l ++ (e ∷ inorder r)

abbrev pub height : Tree → ℕ
height leaf = 0
height (node l e r) = suc (max (height l) (height r))

abbrev pub plug : Place → Tree → Tree
plug top t = t
plug (left_of c e r) t = plug c (node t e r)
plug (right_of l e c) t = plug c (node l e t)

-- What comes before and after a place, in order.
abbrev pub before : Place → List ℕ
before top = []
before (left_of c e r) = before c
before (right_of l e c) = before c ++ (inorder l ++ (e ∷ []))

abbrev pub after : Place → List ℕ
after top = []
after (left_of c e r) = e ∷ (inorder r ++ after c)
after (right_of l e c) = after c

abbrev pub depth : Place → ℕ
depth top = 0
depth (left_of c e r) = suc (depth c)
depth (right_of l e c) = suc (depth c)

-- The height of the whole where the place has a subtree of height h.
abbrev pub plug_height : Place → ℕ → ℕ
plug_height top h = h
plug_height (left_of c e r) h = plug_height c (suc (max h (height r)))
plug_height (right_of l e c) h = plug_height c (suc (max (height l) h))

-- The id of a tree's root, and of the node that a place is below.
abbrev pub root_id : Tree → ℕ
root_id leaf = 0
root_id (node l e r) = suc e

abbrev pub above_id : Place → ℕ
above_id top = 0
above_id (left_of c e r) = suc e
above_id (right_of l e c) = suc e

pub inorder-plug : (c : Place) (t : Tree) → inorder (plug c t) ≡ before c ++ (inorder t ++ after c)
inorder-plug top t = sym (append-nil (inorder t))
inorder-plug (left_of c e r) t = inorder-plug c (node t e r) ∙ simp (append_assoc)
inorder-plug (right_of l e c) t = inorder-plug c (node l e t) ∙ simp (append_assoc)

pub height-plug : (c : Place) (t : Tree) → height (plug c t) ≡ plug_height c (height t)
height-plug top t = refl
height-plug (left_of c e r) t = height-plug c (node t e r)
height-plug (right_of l e c) t = height-plug c (node l e t)

max_swap : (a b : ℕ) → max a b ≡ max b a
max_swap a b = omega arith

pub plug_height_mono : (c : Place) (g h : ℕ) → g ≤ h → plug_height c g ≤ plug_height c h
plug_height_mono top g h p = p
plug_height_mono (left_of c e r) g h p =
    plug_height_mono c (suc (max g (height r))) (suc (max h (height r))) (omega arith)
plug_height_mono (right_of l e c) g h p =
    plug_height_mono c (suc (max (height l) g)) (suc (max (height l) h)) (omega arith)

le_or_gt : (a b : ℕ) → (suc a ≤ b) ⊎ (b ≤ a)
le_or_gt a b = ground arith

-- One more level at a place makes the whole no higher than the place is deep.
plug_height-side :
    (c : Place) (k h : ℕ)
    → plug_height c (suc (suc h)) ≤ max (plug_height c (suc h)) (depth c + suc (suc h))
    → plug_height c (suc (max (suc h) k))
      ≤ max (plug_height c (suc (max h k))) (suc (depth c) + suc h)
plug_height-side c k h ih = elim (le_or_gt h k) [
  | inl p ↦
      let e : max (suc h) k ≡ max h k = omega arith in
      omega (arith, ap (λ m. plug_height c (suc m)) e)
  | inr p ↦
      let d : max (suc h) k ≡ suc h = omega arith in
      let e : max h k ≡ h = omega arith in
      omega (arith, ap (λ m. plug_height c (suc m)) d, ap (λ m. plug_height c (suc m)) e)
]

pub plug_height-suc :
    (c : Place) (h : ℕ) → plug_height c (suc h) ≤ max (plug_height c h) (depth c + suc h)
plug_height-suc top h = omega arith
plug_height-suc (left_of c e r) h = plug_height-side c (height r) h (plug_height-suc c (suc h))
plug_height-suc (right_of l e c) h =
    rw (max_swap (height l) (suc h), max_swap (height l) h)
      (plug_height-side c (height l) h (plug_height-suc c (suc h)))

pub depth-le : (c : Place) (h : ℕ) → depth c + h ≤ plug_height c h
depth-le top h = omega arith
depth-le (left_of c e r) h = omega (arith, depth-le c (suc (max h (height r))))
depth-le (right_of l e c) h = omega (arith, depth-le c (suc (max (height l) h)))

-- A place seen from a place within it.
abbrev pub within : Place → Place → Place
within top d = d
within (left_of c e r) d = left_of (within c d) e r
within (right_of l e c) d = right_of l e (within c d)

pub before-within : (c d : Place) → before (within c d) ≡ before d ++ before c
before-within top d = sym (append-nil (before d))
before-within (left_of c e r) d = before-within c d
before-within (right_of l e c) d = rw (before-within c d) (simp (append_assoc))

pub after-within : (c d : Place) → after (within c d) ≡ after c ++ after d
after-within top d = refl
after-within (left_of c e r) d = rw (after-within c d) (simp (append_assoc))
after-within (right_of l e c) d = after-within c d

pub plug_height-within :
    (c d : Place) (h : ℕ) → plug_height (within c d) h ≡ plug_height d (plug_height c h)
plug_height-within top d h = refl
plug_height-within (left_of c e r) d h = plug_height-within c d (suc (max h (height r)))
plug_height-within (right_of l e c) d h = plug_height-within c d (suc (max (height l) h))

pub plug-within : (c d : Place) (t : Tree) → plug (within c d) t ≡ plug d (plug c t)
plug-within top d t = refl
plug-within (left_of c e r) d t = plug-within c d (node t e r)
plug-within (right_of l e c) d t = plug-within c d (node l e t)

-- A tree that is no leaf has a first node, at a place that nothing comes before.
pub first_place :
    (l : Tree) (e : ℕ) (r : Tree)
    → (c : Place) × (m : ℕ) × (s : Tree) × (plug c (node leaf m s) ≡ node l e r) × (before c ≡ [])
first_place leaf e r = (top, e, r, refl, refl)
first_place (node l₁ e₁ r₁) e r =
    let (c, m, s, p, b) = first_place l₁ e₁ r₁ in
    let d : Place = left_of top e r in
    (
      within c d,
      m,
      s,
      plug-within c d (node leaf m s) ∙ ap (λ t. node t e r) p,
      before-within c d ∙ b,
    )

pub split_count :
    (e : ℕ) (l : Tree) (x : ℕ) (r : Tree)
    → count e (inorder (node l x r)) ≢ 0
    → (count e (inorder l) ≢ 0) ⊎ ((e ≡ x) ⊎ (count e (inorder r) ≢ 0))
split_count e l x r h = ground (arith, count-append e (inorder l) (x ∷ inorder r), ==_iff x e)

-- A node of a tree has a place in it.
pub place_of :
    (e : ℕ) (t : Tree)
    → count e (inorder t) ≢ 0
    → (c : Place) × (l : Tree) × (r : Tree) × (plug c (node l e r) ≡ t)
place_of e leaf h = absurd (h refl)
place_of e (node l x r) h = elim (split_count e l x r h) [
  | inl p ↦
      let (c, m, s, q) = place_of e l p in
      let d : Place = left_of top x r in
      (within c d, m, s, plug-within c d (node m e s) ∙ ap (λ t. node t x r) q)
  | inr (inl p) ↦ (top, l, r, ap (λ y. node l y r) p)
  | inr (inr p) ↦
      let (c, m, s, q) = place_of e r p in
      let d : Place = right_of l x top in
      (within c d, m, s, plug-within c d (node m e s) ∙ ap (λ t. node l x t) q)
]
