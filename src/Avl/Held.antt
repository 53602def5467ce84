-- ===== src/Avl/Held.antt =====
-- When the nodes of lib/avl.bpf.h hold a tree, or the part of a tree around a place: their child
-- ids (Kids), their parent ids (Up) and their balances (Bal), each read from the maps it needs.
-- Each is kept by writes to other nodes.
pub mod Around
use ghost_userspace_o.Base.{
  ℕ, zero, suc, ◌+◌, ◌≤◌, ◌≡◌, ◌≢◌, refl, sym, ap, ◌∙◌, ◌⊎◌, inl, inr, ◌==◌, ==_refl, ==_iff,
  if◌then◌else◌, List, [], ◌∷◌, ◌++◌, count, count-append, arith,
}
use Prim.Native.Nat.{max, pred}
use ghost_userspace_o.Base.Int.{ℤ, pos, negsuc}
use ghost_userspace_o.Avl.Tree.{
  Tree, leaf, node, Place, top, left_of, right_of, inorder, height, plug, before, after, root_id,
  above_id,
}

abbrev pub Kids : (ℕ → ℕ) → (ℕ → ℕ) → Tree → ℕ → Type 0
Kids l r leaf id = id ≡ 0
Kids l r (node a e b) id = (id ≡ suc e) × Kids l r a (l e) × Kids l r b (r e)

abbrev pub Up : (ℕ → ℕ) → ℕ → Tree → Type 0
Up p parent leaf = Unit {0}
Up p parent (node a e b) = (p e ≡ parent) × Up p (suc e) a × Up p (suc e) b

-- The balance is the height of the right less the height of the left, and at most 1 either way.
abbrev pub Level : ℤ → ℕ → ℕ → Type 0
Level b g h =
    ((b ≡ pos 0) × (g ≡ h)) ⊎ (((b ≡ pos 1) × (h ≡ suc g)) ⊎ ((b ≡ negsuc 0) × (g ≡ suc h)))

abbrev pub Bal : (ℕ → ℤ) → Tree → Type 0
Bal b leaf = Unit {0}
Bal b (node s e t) = Level (b e) (height s) (height t) × Bal b s × Bal b t

-- The part around a place, whose subtree has the root of an id, or the height h.
abbrev pub KidsAt : (ℕ → ℕ) → (ℕ → ℕ) → ℕ → Place → ℕ → Type 0
KidsAt l r root top id = root ≡ id
KidsAt l r root (left_of c e b) id = (l e ≡ id) × Kids l r b (r e) × KidsAt l r root c (suc e)
KidsAt l r root (right_of a e c) id = (r e ≡ id) × Kids l r a (l e) × KidsAt l r root c (suc e)

abbrev pub UpAt : (ℕ → ℕ) → Place → Type 0
UpAt p top = Unit {0}
UpAt p (left_of c e b) = (p e ≡ above_id c) × Up p (suc e) b × UpAt p c
UpAt p (right_of a e c) = (p e ≡ above_id c) × Up p (suc e) a × UpAt p c

abbrev pub BalAt : (ℕ → ℤ) → Place → ℕ → Type 0
BalAt b top h = Unit {0}
BalAt b (left_of c e t) h = Level (b e) h (height t) × Bal b t × BalAt b c (suc (max h (height t)))
BalAt b (right_of s e c) h = Level (b e) (height s) h × Bal b s × BalAt b c (suc (max (height s) h))

-- How often a node stands around a place.
abbrev pub around : ℕ → Place → ℕ
around e c = count e (before c) + count e (after c)

-- Once, in a tree that is one node.
abbrev pub once : ℕ → ℕ → ℕ
once x e = if x == e then 1 else 0

pub count-node :
    (i : ℕ) (a : Tree) (e : ℕ) (b : Tree)
    → count i (inorder (node a e b)) ≡ count i (inorder a) + (once e i + count i (inorder b))
count-node i a e b = count-append i (inorder a) (e ∷ inorder b)

pub around-left :
    (i : ℕ) (c : Place) (e : ℕ) (b : Tree)
    → around i (left_of c e b) ≡ around i c + (once e i + count i (inorder b))
around-left i c e b = omega (arith, count-append i (inorder b) (after c))

pub around-right :
    (i : ℕ) (a : Tree) (e : ℕ) (c : Place)
    → around i (right_of a e c) ≡ around i c + (once e i + count i (inorder a))
around-right i a e c =
    omega (
      arith,
      count-append i (before c) (inorder a ++ (e ∷ [])),
      count-append i (inorder a) (e ∷ []),
    )

pub once_self : (e : ℕ) → once e e ≡ 1
once_self e = rw (==_refl e)

-- A node that stands in one list and not in another is not a node of the other.
pub apart : (x e : ℕ) (xs : List ℕ) → count x xs ≡ 0 → count e xs ≢ 0 → e ≢ x
apart x e xs h k p = k (ap (λ i. count i xs) p ∙ h)

pub Kids-frame :
    (l r l' r' : ℕ → ℕ) (t : Tree) (id : ℕ)
    → ((e : ℕ) → count e (inorder t) ≢ 0 → (l e ≡ l' e) × (r e ≡ r' e))
    → Kids l r t id
    → Kids l' r' t id
Kids-frame l r l' r' leaf id f k = k
Kids-frame l r l' r' (node a e b) id f (h, j, k) =
    let (p, q) = f e (λ z. omega (arith, count-node e a e b, once_self e)) in
    (
      h,
      rw (sym p)
          (Kids-frame l r l' r' a (l e) (λ i z. f i (λ y. omega (arith, count-node i a e b))) j),
      rw (sym q)
          (Kids-frame l r l' r' b (r e) (λ i z. f i (λ y. omega (arith, count-node i a e b))) k),
    )

pub Up-frame :
    (p p' : ℕ → ℕ) (parent : ℕ) (t : Tree)
    → ((e : ℕ) → count e (inorder t) ≢ 0 → p e ≡ p' e)
    → Up p parent t
    → Up p' parent t
Up-frame p p' parent leaf f u = tt
Up-frame p p' parent (node a e b) f (h, u, v) = (
  sym (f e (λ z. omega (arith, count-node e a e b, once_self e))) ∙ h,
  Up-frame p p' (suc e) a (λ i z. f i (λ y. omega (arith, count-node i a e b))) u,
  Up-frame p p' (suc e) b (λ i z. f i (λ y. omega (arith, count-node i a e b))) v,
)

-- The root gets another parent.
pub Up-reparent :
    (p p' : ℕ → ℕ) (parent parent' : ℕ) (t : Tree)
    → ((e : ℕ) → count e (inorder t) ≢ 0 → root_id t ≢ suc e → p e ≡ p' e)
    → ((e : ℕ) → root_id t ≡ suc e → p' e ≡ parent')
    → ((e : ℕ) → count e (inorder t) ≤ 1)
    → Up p parent t
    → Up p' parent' t
Up-reparent p p' parent parent' leaf f g d u = tt
Up-reparent p p' parent parent' (node a e b) f g d (h, u, v) = (
  g e refl,
  Up-frame p p' (suc e) a
      (λ i z.
        f i (λ y. omega (arith, count-node i a e b))
          (λ y. omega (
            arith,
            d e,
            count-node e a e b,
            once_self e,
            ap (λ k. count k (inorder a)) (suc_inj e i y),
          )))
      u,
  Up-frame p p' (suc e) b
      (λ i z.
        f i (λ y. omega (arith, count-node i a e b))
          (λ y. omega (
            arith,
            d e,
            count-node e a e b,
            once_self e,
            ap (λ k. count k (inorder b)) (suc_inj e i y),
          )))
      v,
)
  where
    suc_inj : (i j : ℕ) → suc i ≡ suc j → i ≡ j
    suc_inj i j q = omega arith

pub Bal-frame :
    (b b' : ℕ → ℤ) (t : Tree)
    → ((e : ℕ) → count e (inorder t) ≢ 0 → b e ≡ b' e)
    → Bal b t
    → Bal b' t
Bal-frame b b' leaf f k = tt
Bal-frame b b' (node s e t) f (h, j, k) = (
  rw (sym (f e (λ z. omega (arith, count-node e s e t, once_self e)))) h,
  Bal-frame b b' s (λ i z. f i (λ y. omega (arith, count-node i s e t))) j,
  Bal-frame b b' t (λ i z. f i (λ y. omega (arith, count-node i s e t))) k,
)
