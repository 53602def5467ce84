-- ===== src/Avl/Held/Around.antt =====
-- What a place of a tree keeps, and how a subtree and its place make a tree.
use ghost_userspace_o.Base.{ℕ, suc, ◌≡◌, ◌≢◌, refl, sym, ap, ◌∙◌, count, arith}
use Prim.Native.Nat.{max, pred}
use ghost_userspace_o.Base.Int.{ℤ}
use ghost_userspace_o.Avl.Tree.{
  Tree, leaf, node, Place, top, left_of, right_of, inorder, height, plug, root_id, above_id,
}
use ghost_userspace_o.Avl.Held.{
  Kids, Up, Bal, KidsAt, UpAt, BalAt, around, once, count-node, around-left, around-right,
  once_self, Kids-frame, Up-frame, Bal-frame,
}

pub KidsAt-frame :
    (l r l' r' : ℕ → ℕ) (root : ℕ) (c : Place) (id : ℕ)
    → ((e : ℕ) → around e c ≢ 0 → (l e ≡ l' e) × (r e ≡ r' e))
    → KidsAt l r root c id
    → KidsAt l' r' root c id
KidsAt-frame l r l' r' root top id f k = k
KidsAt-frame l r l' r' root (left_of c e b) id f (h, j, k) =
    let (p, q) = f e (λ z. omega (arith, around-left e c e b, once_self e)) in
    (
      sym p ∙ h,
      rw (sym q)
          (Kids-frame l r l' r' b (r e) (λ i z. f i (λ y. omega (arith, around-left i c e b))) j),
      KidsAt-frame l r l' r' root c (suc e) (λ i z. f i (λ y. omega (arith, around-left i c e b)))
          k,
    )
KidsAt-frame l r l' r' root (right_of a e c) id f (h, j, k) =
    let (p, q) = f e (λ z. omega (arith, around-right e a e c, once_self e)) in
    (
      sym q ∙ h,
      rw (sym p)
          (Kids-frame l r l' r' a (l e) (λ i z. f i (λ y. omega (arith, around-right i a e c))) j),
      KidsAt-frame l r l' r' root c (suc e) (λ i z. f i (λ y. omega (arith, around-right i a e c)))
          k,
    )

pub UpAt-frame :
    (p p' : ℕ → ℕ) (c : Place) → ((e : ℕ) → around e c ≢ 0 → p e ≡ p' e) → UpAt p c → UpAt p' c
UpAt-frame p p' top f k = tt
UpAt-frame p p' (left_of c e b) f (h, j, k) = (
  sym (f e (λ z. omega (arith, around-left e c e b, once_self e))) ∙ h,
  Up-frame p p' (suc e) b (λ i z. f i (λ y. omega (arith, around-left i c e b))) j,
  UpAt-frame p p' c (λ i z. f i (λ y. omega (arith, around-left i c e b))) k,
)
UpAt-frame p p' (right_of a e c) f (h, j, k) = (
  sym (f e (λ z. omega (arith, around-right e a e c, once_self e))) ∙ h,
  Up-frame p p' (suc e) a (λ i z. f i (λ y. omega (arith, around-right i a e c))) j,
  UpAt-frame p p' c (λ i z. f i (λ y. omega (arith, around-right i a e c))) k,
)

pub BalAt-frame :
    (b b' : ℕ → ℤ) (c : Place) (h : ℕ)
    → ((e : ℕ) → around e c ≢ 0 → b e ≡ b' e)
    → BalAt b c h
    → BalAt b' c h
BalAt-frame b b' top h f k = tt
BalAt-frame b b' (left_of c e t) h f (i, j, k) = (
  rw (sym (f e (λ z. omega (arith, around-left e c e t, once_self e)))) i,
  Bal-frame b b' t (λ i z. f i (λ y. omega (arith, around-left i c e t))) j,
  BalAt-frame b b' c (suc (max h (height t))) (λ i z. f i (λ y. omega (arith, around-left i c e t)))
      k,
)
BalAt-frame b b' (right_of s e c) h f (i, j, k) = (
  rw (sym (f e (λ z. omega (arith, around-right e s e c, once_self e)))) i,
  Bal-frame b b' s (λ i z. f i (λ y. omega (arith, around-right i s e c))) j,
  BalAt-frame b b' c (suc (max (height s) h))
      (λ i z. f i (λ y. omega (arith, around-right i s e c))) k,
)

-- A tree and its place make the whole, and the whole has both.
pub Kids-plug :
    (l r : ℕ → ℕ) (root : ℕ) (c : Place) (t : Tree) (id : ℕ)
    → KidsAt l r root c id
    → Kids l r t id
    → Kids l r (plug c t) root
Kids-plug l r root top t id k j = rw k j
Kids-plug l r root (left_of c e b) t id (p, q, k) j =
    Kids-plug l r root c (node t e b) (suc e) k (refl, rw p j, q)
Kids-plug l r root (right_of a e c) t id (p, q, k) j =
    Kids-plug l r root c (node a e t) (suc e) k (refl, q, rw p j)

pub Up-plug :
    (p : ℕ → ℕ) (c : Place) (t : Tree) → UpAt p c → Up p (above_id c) t → Up p 0 (plug c t)
Up-plug p top t k j = j
Up-plug p (left_of c e b) t (h, q, k) j = Up-plug p c (node t e b) k (h, j, q)
Up-plug p (right_of a e c) t (h, q, k) j = Up-plug p c (node a e t) k (h, q, j)

pub Bal-plug :
    (b : ℕ → ℤ) (c : Place) (t : Tree) → BalAt b c (height t) → Bal b t → Bal b (plug c t)
Bal-plug b top t k j = j
Bal-plug b (left_of c e s) t (h, q, k) j = Bal-plug b c (node t e s) k (h, j, q)
Bal-plug b (right_of s e c) t (h, q, k) j = Bal-plug b c (node s e t) k (h, q, j)

pub Kids-root_id : (l r : ℕ → ℕ) (t : Tree) (id : ℕ) → Kids l r t id → id ≡ root_id t
Kids-root_id l r leaf id k = k
Kids-root_id l r (node a e b) id (h, j, k) = h

pub Kids-unplug :
    (l r : ℕ → ℕ) (root : ℕ) (c : Place) (t : Tree)
    → Kids l r (plug c t) root
    → KidsAt l r root c (root_id t) × Kids l r t (root_id t)
Kids-unplug l r root top t k = let h = Kids-root_id l r t root k in (h, rw (sym h) k)
Kids-unplug l r root (left_of c e b) t k =
    let (j, (i, a, q)) = Kids-unplug l r root c (node t e b) k in
    let h = Kids-root_id l r t (l e) a in ((h, q, j), rw (sym h) a)
Kids-unplug l r root (right_of a e c) t k =
    let (j, (i, q, b)) = Kids-unplug l r root c (node a e t) k in
    let h = Kids-root_id l r t (r e) b in ((h, q, j), rw (sym h) b)

pub Up-unplug :
    (p : ℕ → ℕ) (c : Place) (t : Tree) → Up p 0 (plug c t) → UpAt p c × Up p (above_id c) t
Up-unplug p top t k = (tt, k)
Up-unplug p (left_of c e b) t k =
    let (j, (h, u, v)) = Up-unplug p c (node t e b) k in ((h, v, j), u)
Up-unplug p (right_of a e c) t k =
    let (j, (h, u, v)) = Up-unplug p c (node a e t) k in ((h, u, j), v)

pub Bal-unplug :
    (b : ℕ → ℤ) (c : Place) (t : Tree) → Bal b (plug c t) → BalAt b c (height t) × Bal b t
Bal-unplug b top t k = (tt, k)
Bal-unplug b (left_of c e s) t k =
    let (j, (h, u, v)) = Bal-unplug b c (node t e s) k in ((h, v, j), u)
Bal-unplug b (right_of s e c) t k =
    let (j, (h, u, v)) = Bal-unplug b c (node s e t) k in ((h, u, j), v)

-- The root of a tree stands in it.
pub root_id-other : (t : Tree) (e : ℕ) → count e (inorder t) ≡ 0 → root_id t ≢ suc e
root_id-other leaf e h p = omega arith
root_id-other (node a x b) e h p =
    omega (arith, count-node e a x b, once_self e, ap (λ i. once (pred i) e) p)

-- What stands right above a place stands around it.
pub above_id-other : (c : Place) (e : ℕ) → around e c ≡ 0 → above_id c ≢ suc e
above_id-other top e h p = omega arith
above_id-other (left_of c x b) e h p =
    omega (arith, around-left e c x b, once_self e, ap (λ i. once (pred i) e) p)
above_id-other (right_of a x c) e h p =
    omega (arith, around-right e a x c, once_self e, ap (λ i. once (pred i) e) p)
