-- ===== src/Avl/Walks.antt =====
-- The walks of lib/avl.bpf.h that write nothing: lookup, the least and the greatest node of a
-- subtree, and the next and the previous node.
use ghost_userspace_o.Base.{
  ℕ, zero, suc, ◌≤◌, ◌<◌, ◌≡◌, true, false, refl, sym, ap, ◌∙◌, ◌==◌, ==_refl, List, [], ◌∷◌, ◌++◌,
  arith,
}
use ghost_userspace_o.ArrList.{id_to_elem}
use ghost_userspace_o.ArrList.Links.{first_id, last_id}
use ghost_userspace_o.Avl.{Nodes, min_from, max_from, climb_next, climb_prev}
use ghost_userspace_o.Avl.Tree.{
  Tree, leaf, node, Place, top, left_of, right_of, inorder, height, before, after, above_id, depth,
}
use ghost_userspace_o.Avl.Held.{
  Kids, KidsAt, UpAt, around, once, once_self, around-left, around-right,
}
use ghost_userspace_o.Avl.Held.Around.{root_id-other, Kids-root_id}
use ghost_userspace_o.Avl.Inserted.Cache.{last_id-append}
use ghost_userspace_o.Avl.Spot.{==_ne}

pub first_id-append :
    (xs : List ℕ) (y : ℕ) (ys zs : List ℕ)
    → first_id (xs ++ (y ∷ ys)) 0 ≡ first_id (xs ++ (y ∷ zs)) 0
first_id-append [] y ys zs = refl
first_id-append (x ∷ xs) y ys zs = refl

pub first_id-within :
    (xs : List ℕ) (y : ℕ) (ys zs : List ℕ)
    → first_id (xs ++ (y ∷ ys)) 0 ≡ first_id ((xs ++ (y ∷ ys)) ++ zs) 0
first_id-within [] y ys zs = refl
first_id-within (x ∷ xs) y ys zs = refl

-- The last of two lists, of which the second is not empty.
pub last_id-within :
    (p q : ℕ) (xs ys : List ℕ) (y : ℕ) (zs : List ℕ)
    → last_id p (ys ++ (y ∷ zs)) ≡ last_id q (xs ++ (ys ++ (y ∷ zs)))
last_id-within p q [] [] y zs = refl
last_id-within p q [] (x ∷ ys) y zs = refl
last_id-within p q (x ∷ xs) ys y zs = last_id-within p (suc x) xs ys y zs

-- The leftmost node of a subtree is its first, if the rounds do.
pub min_from-first :
    (k : ℕ) (n : Nodes) (t : Tree) (id : ℕ)
    → height t ≤ k
    → Kids n.left_id n.right_id t id
    → min_from k n id ≡ id_to_elem (first_id (inorder t) 0)
unfolding min_from
min_from-first zero n leaf id h p = refl
min_from-first zero n (node a e b) id h k = absurd (omega arith)
min_from-first (suc k) n leaf id h p = rw (p) refl
min_from-first (suc k) n (node leaf e b) id h (p, q, r) =
    let t : (n.left_id e == 0) ≡ true = rw (q) refl in rw (p, t) refl
min_from-first (suc k) n (node (node a x a') e b) id h (p, q, r) =
    let t : (n.left_id e == 0) ≡ false = ==_ne (n.left_id e) 0 (λ w. omega (arith, q.0)) in
    let ih = min_from-first k n (node a x a') (n.left_id e) (omega arith) q in
    rw (p, t) (ih ∙ ap id_to_elem (first_id-within (inorder a) x (inorder a') (e ∷ inorder b)))

pub max_from-last :
    (k : ℕ) (n : Nodes) (t : Tree) (id : ℕ)
    → height t ≤ k
    → Kids n.left_id n.right_id t id
    → max_from k n id ≡ id_to_elem (last_id 0 (inorder t))
unfolding max_from
max_from-last zero n leaf id h p = refl
max_from-last zero n (node a e b) id h k = absurd (omega arith)
max_from-last (suc k) n leaf id h p = rw (p) refl
max_from-last (suc k) n (node a e leaf) id h (p, q, r) =
    let t : (n.right_id e == 0) ≡ true = rw (r) refl in
    rw (p, t, last_id-append 0 (inorder a) e []) refl
max_from-last (suc k) n (node a e (node b x b')) id h (p, q, r) =
    let t : (n.right_id e == 0) ≡ false = ==_ne (n.right_id e) 0 (λ w. omega (arith, r.0)) in
    let ih = max_from-last k n (node b x b') (n.right_id e) (omega arith) r in
    rw (p, t)
      (ih
        ∙ ap id_to_elem (
            last_id-within 0 (suc e) [] (inorder b) x (inorder b')
            ∙ sym (last_id-append 0 (inorder a) e (inorder b ++ (x ∷ inorder b')))))

last_id-append-two : (xs ys : List ℕ) (y : ℕ) → last_id 0 (xs ++ (ys ++ (y ∷ []))) ≡ suc y
last_id-append-two xs ys y = sym (last_id-within 0 0 xs ys y []) ∙ last_id-append 0 ys y []

-- The way up finds the node above the last place on a left side, which is the next in order.
pub climb_next-first :
    (k : ℕ) (n : Nodes) (root : ℕ) (c : Place) (x : ℕ)
    → depth c < k
    → KidsAt n.left_id n.right_id root c (suc x)
    → UpAt n.parent_id c
    → around x c ≡ 0
    → ((i : ℕ) → around i c ≤ 1)
    → climb_next k n (suc x) (above_id c) ≡ id_to_elem (first_id (after c) 0)
unfolding climb_next
climb_next-first zero n root c x h k u o d = absurd (omega arith)
climb_next-first (suc r) n root top x h k u o d = refl
climb_next-first (suc r) n root (left_of c e b) x h (p, k, j) (q, v, w) o d =
    let t : (suc x == n.left_id e) ≡ true = rw (p) (==_refl (suc x)) in rw (t) refl
climb_next-first (suc r) n root (right_of a e c) x h (p, k, j) (q, v, w) o d =
    let t : (suc x == n.left_id e) ≡ false = ==_ne (suc x) (n.left_id e) (λ i.
      root_id-other a x (omega (arith, around-right x a e c))
        (sym (Kids-root_id n.left_id n.right_id a (n.left_id e) k) ∙ sym i)) in
    let one : once e e ≡ 1 = once_self e in
    rw (t, q)
      (climb_next-first r n root c e (omega arith) j w (omega (arith, d e, around-right e a e c))
        (λ i. omega (arith, d i, around-right i a e c)))

pub climb_prev-last :
    (k : ℕ) (n : Nodes) (root : ℕ) (c : Place) (x : ℕ)
    → depth c < k
    → KidsAt n.left_id n.right_id root c (suc x)
    → UpAt n.parent_id c
    → around x c ≡ 0
    → ((i : ℕ) → around i c ≤ 1)
    → climb_prev k n (suc x) (above_id c) ≡ id_to_elem (last_id 0 (before c))
unfolding climb_prev
climb_prev-last zero n root c x h k u o d = absurd (omega arith)
climb_prev-last (suc r) n root top x h k u o d = refl
climb_prev-last (suc r) n root (right_of a e c) x h (p, k, j) (q, v, w) o d =
    let t : (suc x == n.right_id e) ≡ true = rw (p) (==_refl (suc x)) in
    rw (t) (sym (ap id_to_elem (last_id-append-two (before c) (inorder a) e)))
climb_prev-last (suc r) n root (left_of c e b) x h (p, k, j) (q, v, w) o d =
    let t : (suc x == n.right_id e) ≡ false = ==_ne (suc x) (n.right_id e) (λ i.
      root_id-other b x (omega (arith, around-left x c e b))
        (sym (Kids-root_id n.left_id n.right_id b (n.right_id e) k) ∙ sym i)) in
    let one : once e e ≡ 1 = once_self e in
    rw (t, q)
      (climb_prev-last r n root c e (omega arith) j w (omega (arith, d e, around-left e c e b))
        (λ i. omega (arith, d i, around-left i c e b)))
