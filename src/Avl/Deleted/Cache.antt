-- ===== src/Avl/Deleted/Cache.antt =====
-- The cached least and greatest node when a node is deleted (lib/avl.bpf.h).
use ghost_userspace_o.Base.{
  ℕ, suc, ◌≡◌, false, refl, sym, ap, ◌∙◌, ◌==◌, ==_refl, count, List, [], ◌∷◌, ◌++◌, Option-cases,
  Bool-cases, inl, inr, arith,
}
use Prim.Native.Nat.{pred}
use mathlib.Core.List.{append-nil}
use ghost_userspace_o.ArrList.{id_to_elem}
use ghost_userspace_o.ArrList.Links.{first_id, last_id}
use ghost_userspace_o.Avl.{Nodes, AvlTree, next_node, prev_node}
use ghost_userspace_o.Avl.Delete.{forget_min, forget_max}
use ghost_userspace_o.Avl.Held.{once_self}
use ghost_userspace_o.Avl.Inserted.Cache.{last_of, last_id-append}
use ghost_userspace_o.Avl.Invariant.{Cached}
use ghost_userspace_o.Avl.Spot.{==_ne}

abbrev MinOf : Nodes → AvlTree → List ℕ → Type 0
MinOf n t xs = (t.min_id ≡ first_id xs 0) × ((i : ℕ) → t.min_id ≡ suc i → t.min_key ≡ n.key i)

abbrev MaxOf : Nodes → AvlTree → List ℕ → Type 0
MaxOf n t xs = (t.max_id ≡ last_id 0 xs) × ((i : ℕ) → t.max_id ≡ suc i → t.max_key ≡ n.key i)

key_of : (n : Nodes) (e i : ℕ) → suc e ≡ suc i → n.key e ≡ n.key i
key_of n e i p = ap n.key (omega arith)

forget_min-MinOf :
    (n : Nodes) (t : AvlTree) (e : ℕ) (ys zs : List ℕ)
    → MinOf n t (ys ++ (e ∷ zs))
    → count e ys ≡ 0
    → next_node n e ≡ id_to_elem (first_id zs 0)
    → MinOf n (forget_min n t e) (ys ++ zs)
forget_min-MinOf n t e [] [] (p, q) o h =
    rw (p, ==_refl (suc e), h) (refl, λ i w. absurd (omega arith))
forget_min-MinOf n t e [] (z ∷ zs) (p, q) o h = rw (p, ==_refl (suc e), h) (refl, key_of n z)
forget_min-MinOf n t e (y ∷ ys) zs (p, q) o h =
    let other : (suc e == t.min_id) ≡ false =
      ==_ne (suc e) t.min_id
        (λ w. omega (arith, once_self y, ap (λ i. count (pred i) (y ∷ ys)) (w ∙ p))) in
    rw (other) (p, q)

forget_max-MaxOf :
    (n : Nodes) (t : AvlTree) (e : ℕ) (ys zs : List ℕ)
    → MaxOf n t (ys ++ (e ∷ zs))
    → count e zs ≡ 0
    → prev_node n e ≡ id_to_elem (last_id 0 ys)
    → MaxOf n (forget_max n t e) (ys ++ zs)
forget_max-MaxOf n t e [] [] (p, q) o h =
    rw (p, ==_refl (suc e), h) (refl, λ i w. absurd (omega arith))
forget_max-MaxOf n t e (y ∷ ys) [] (p, q) o h =
    let (m, l, k) = last_of y ys in
    rw (p, last_id-append 0 (y ∷ ys) e [], ==_refl (suc e), h, append-nil (y ∷ ys), l)
      (refl, key_of n m)
forget_max-MaxOf n t e ys (z ∷ zs) (p, q) o h =
    let (m, l, k) = last_of z zs in
    let r : t.max_id ≡ last_id (suc z) zs = p ∙ last_id-append 0 ys e (z ∷ zs) in
    let other : (suc e == t.max_id) ≡ false =
      ==_ne (suc e) t.max_id (λ w. k (sym (ap (λ i. count (pred i) (z ∷ zs)) (w ∙ r ∙ l)) ∙ o)) in
    rw (other) (r ∙ sym (last_id-append 0 ys z zs), q)

forget_min-rest :
    (n : Nodes) (t : AvlTree) (e : ℕ)
    → ((forget_min n t e).max_id ≡ t.max_id)
      × ((forget_min n t e).max_key ≡ t.max_key)
      × ((forget_min n t e).first_orphan_id ≡ t.first_orphan_id)
forget_min-rest n t e = elim (Bool-cases (suc e == t.min_id)) [
  | inl p ↦ elim (Option-cases (next_node n e)) [
    | inl q ↦ rw (p, q) (refl, refl, refl)
    | inr (i, q) ↦ rw (p, q) (refl, refl, refl)
  ]
  | inr p ↦ rw (p) (refl, refl, refl)
]

forget_max-rest :
    (n : Nodes) (t : AvlTree) (e : ℕ)
    → ((forget_max n t e).min_id ≡ t.min_id)
      × ((forget_max n t e).min_key ≡ t.min_key)
      × ((forget_max n t e).first_orphan_id ≡ t.first_orphan_id)
forget_max-rest n t e = elim (Bool-cases (suc e == t.max_id)) [
  | inl p ↦ elim (Option-cases (prev_node n e)) [
    | inl q ↦ rw (p, q) (refl, refl, refl)
    | inr (i, q) ↦ rw (p, q) (refl, refl, refl)
  ]
  | inr p ↦ rw (p) (refl, refl, refl)
]

-- After both the cache is right for the list without the node.
pub forget-Cached :
    (n n' : Nodes) (t : AvlTree) (root e : ℕ) (ys zs : List ℕ)
    → n'.key ≡ n.key
    → Cached n t (ys ++ (e ∷ zs))
    → count e ys ≡ 0
    → count e zs ≡ 0
    → next_node n e ≡ id_to_elem (first_id zs 0)
    → prev_node n e ≡ id_to_elem (last_id 0 ys)
    → Cached n' (record (forget_max n (forget_min n t e) e) { root = root }) (ys ++ zs)
      × ((forget_max n (forget_min n t e) e).first_orphan_id ≡ t.first_orphan_id)
forget-Cached n n' t root e ys zs k c oy oz next prev =
    let m = forget_min n t e in
    let (l, lk) = forget_min-MinOf n t e ys zs (c.min_id, c.min_key) oy next in
    let (a, b, f) = forget_min-rest n t e in
    let (g, gk) =
      forget_max-MaxOf n m e ys zs (a ∙ c.max_id, λ i p. b ∙ c.max_key i (sym a ∙ p)) oz prev in
    let (a', b', f') = forget_max-rest n m e in
    (
      record {
        min_id = a' ∙ l;
        min_key = λ i p. b' ∙ lk i (sym a' ∙ p) ∙ ap (λ key. key i) (sym k);
        max_id = g;
        max_key = λ i p. gk i p ∙ ap (λ key. key i) (sym k);
      },
      f' ∙ f,
    )
