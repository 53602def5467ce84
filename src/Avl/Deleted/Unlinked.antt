-- ===== src/Avl/Deleted/Unlinked.antt =====
-- Every case of taking a node out of the tree in avl_tree_delete (lib/avl.bpf.h), with the next
-- and the previous node of a node.
use ghost_userspace_o.Base.{
  ℕ, ◌≤◌, ◌≡◌, true, false, refl, sym, ap, subst, ◌∙◌, ◌==◌, [], ◌∷◌, ◌++◌, some, length,
  length-append, arith,
}
use mathlib.Core.List.{append-nil}
use ghost_userspace_o.ArrList.{id_to_elem}
use ghost_userspace_o.ArrList.Links.{first_id, last_id}
use ghost_userspace_o.Avl.{Nodes, next_node, prev_node, max_avl_height}
use ghost_userspace_o.Avl.Delete.{unlink, unlink_children, unlink_next}
use ghost_userspace_o.Avl.Tree.{
  Tree, leaf, node, Place, top, left_of, right_of, inorder, height, before, after, plug,
  inorder-plug, plug_height, first_place, depth-le,
}
use ghost_userspace_o.Avl.Held.{Kids, once_self, count-node}
use ghost_userspace_o.Avl.Held.Around.{Kids-root_id}
use ghost_userspace_o.Avl.Deleted.Unlink.{Unlinks}
use ghost_userspace_o.Avl.Deleted.Cuts.{Cut, Unlinks-mono, lone_child-Cut, immediate-Cut}
use ghost_userspace_o.Avl.Deleted.Deep.{deep-Cut}
use ghost_userspace_o.Avl.Walks.{
  min_from-first, max_from-last, climb_next-first, climb_prev-last, first_id-within, last_id-within,
}
use ghost_userspace_o.Avl.Spot.{Spot, ==_ne}

-- The next node of a node of a tree is the first after it in order, and there is none after the
-- last.
pub next_node-first :
    (n : Nodes) (root : ℕ) (c : Place) (a : Tree) (e : ℕ) (b : Tree)
    → Spot n root c (node a e b) (height (node a e b))
    → plug_height c (height (node a e b)) ≤ max_avl_height
    → next_node n e ≡ id_to_elem (first_id (inorder b ++ after c) 0)
unfolding next_node
next_node-first n root c a e leaf s h =
    let t : (n.right_id e == 0) ≡ true = rw (s.kids.2) refl in
    rw (t, s.up.0)
      (climb_next-first max_avl_height n root c e
        (omega (arith, depth-le c (height (node a e leaf)))) s.kids_at s.up_at
        (omega (arith, s.distinct e, count-node e a e leaf, once_self e))
        (λ i. omega (arith, s.distinct i)))
next_node-first n root c a e (node b x b') s h =
    let t : (n.right_id e == 0) ≡ false = ==_ne (n.right_id e) 0 (λ w. omega (arith, s.kids.2.0)) in
    rw (t) (
      min_from-first max_avl_height n (node b x b') (n.right_id e)
        (omega (arith, depth-le c (height (node a e (node b x b'))))) s.kids.2
      ∙ ap id_to_elem (first_id-within (inorder b) x (inorder b') (after c)))

pub prev_node-last :
    (n : Nodes) (root : ℕ) (c : Place) (a : Tree) (e : ℕ) (b : Tree)
    → Spot n root c (node a e b) (height (node a e b))
    → plug_height c (height (node a e b)) ≤ max_avl_height
    → prev_node n e ≡ id_to_elem (last_id 0 (before c ++ inorder a))
unfolding prev_node
prev_node-last n root c leaf e b s h =
    let t : (n.left_id e == 0) ≡ true = rw (s.kids.1) refl in
    rw (t, s.up.0, append-nil (before c))
      (climb_prev-last max_avl_height n root c e
        (omega (arith, depth-le c (height (node leaf e b)))) s.kids_at s.up_at
        (omega (arith, s.distinct e, count-node e leaf e b, once_self e))
        (λ i. omega (arith, s.distinct i)))
prev_node-last n root c (node a x a') e b s h =
    let t : (n.left_id e == 0) ≡ false = ==_ne (n.left_id e) 0 (λ w. omega (arith, s.kids.1.0)) in
    rw (t) (
      max_from-last max_avl_height n (node a x a') (n.left_id e)
        (omega (arith, depth-le c (height (node (node a x a') e b)))) s.kids.1
      ∙ ap id_to_elem (last_id-within 0 0 (before c) (inorder a) x (inorder a')))

-- The next node's place is one that only left sides lead to.
next-Cut :
    (n : Nodes) (root : ℕ) (c : Place) (a : Tree) (y : ℕ) (a' : Tree) (e m : ℕ) (d : Place)
    (u : Tree)
    → before d ≡ []
    → Spot n root c
        (node (node a y a') e (plug d (node leaf m u)))
        (height (node (node a y a') e (plug d (node leaf m u))))
    → Unlinks
        (Cut n
          (before c ++ (inorder (node (node a y a') m (plug d u)) ++ after c))
          (plug_height c (height (node (node a y a') e (plug d (node leaf m u))))))
        (unlink_next n root e (some m))
next-Cut n root c a y a' e m top u p s = immediate-Cut n root c a y a' e m u s
next-Cut n root c a y a' e m (left_of d x b) u p s = deep-Cut n root c a y a' e m d x b u s
next-Cut n root c a y a' e m (right_of l x d) u p s = absurd (
    omega (
      arith,
      ap (length {0}) p,
      length-append {0} (before d) (inorder l ++ (x ∷ [])),
      length-append {0} (inorder l) (x ∷ []),
    ))

pub unlink-Cut :
    (n : Nodes) (root : ℕ) (c : Place) (a : Tree) (e : ℕ) (b : Tree)
    → Spot n root c (node a e b) (height (node a e b))
    → plug_height c (height (node a e b)) ≤ max_avl_height
    → Unlinks
        (Cut n
          (before c ++ ((inorder a ++ inorder b) ++ after c))
          (plug_height c (height (node a e b))))
        (unlink n root e)
unfolding unlink_children
unlink-Cut n root c leaf e b s h =
    let (i, ka, kb) = s.kids in
    let (o, ua, ub) = s.up in
    let (l, ba, bb) = s.bal in
    let r = Kids-root_id n.left_id n.right_id b (n.right_id e) kb in
    rw (ka, o, r)
      (lone_child-Cut n root c e b (height (node leaf e b)) s.kids_at s.up_at s.bal_at
        (subst (λ j. Kids n.left_id n.right_id b j) r kb) ub bb
        (λ j. omega (arith, s.distinct j, count-node j leaf e b)) (omega arith))
unlink-Cut n root c (node a y a') e leaf s h =
    let (i, ka, kb) = s.kids in
    let (o, ua, ub) = s.up in
    let (l, ba, bb) = s.bal in
    let t = node a y a' in
    rw (ka.0, kb, o, append-nil (inorder t))
      (lone_child-Cut n root c e t (height (node t e leaf)) s.kids_at s.up_at s.bal_at
        (subst (λ j. Kids n.left_id n.right_id t j) ka.0 ka) ua ba
        (λ j. omega (arith, s.distinct j, count-node j t e leaf)) (omega arith))
unlink-Cut n root c (node a y a') e (node b x b') s h =
    let (i, ka, kb) = s.kids in
    let t = node a y a' in
    let (d, m, u, p, q) = first_place b x b' in
    let whole : inorder (node b x b') ≡ m ∷ (inorder u ++ after d) =
      ap inorder (sym p)
      ∙ inorder-plug d (node leaf m u)
      ∙ ap (λ xs. xs ++ (m ∷ (inorder u ++ after d))) q in
    let rest : m ∷ inorder (plug d u) ≡ inorder (node b x b') =
      ap (λ xs. m ∷ xs) (inorder-plug d u ∙ ap (λ xs. xs ++ (inorder u ++ after d)) q)
      ∙ sym whole in
    let next : next_node n e ≡ some m =
      next_node-first n root c t e (node b x b') s h
      ∙ ap (λ xs. id_to_elem (first_id (xs ++ after c) 0)) whole in
    let cut =
      next-Cut n root c a y a' e m d u q
        (subst (λ w. Spot n root c (node t e w) (height (node t e w))) (sym p) s) in
    rw (ka.0, kb.0, next)
      (Unlinks-mono
        (Cut n (before c ++ (inorder (node t m (plug d u)) ++ after c))
          (plug_height c (height (node t e (plug d (node leaf m u))))))
        (Cut n (before c ++ ((inorder t ++ inorder (node b x b')) ++ after c))
          (plug_height c (height (node t e (node b x b')))))
        (unlink_next n root e (some m))
        (λ n' root' x_id fl k. record {
          place = k.place;
          subtree = k.subtree;
          above = k.above;
          side = k.side;
          spot = k.spot;
          same = k.same ∙ ap (λ xs. before c ++ ((inorder t ++ xs) ++ after c)) rest;
          low = omega (arith, k.low, ap (λ w. plug_height c (height (node t e w))) p);
          rest = k.rest;
        })
        cut)
