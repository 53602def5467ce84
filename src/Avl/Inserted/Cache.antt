-- ===== src/Avl/Inserted/Cache.antt =====
-- The cached least and greatest node after an insertion (lib/avl.bpf.h).
use ghost_userspace_o.Base.{
  ℕ, suc, ◌≤◌, ◌≡◌, ◌≢◌, true, false, refl, sym, ap, ◌∙◌, ◌==◌, ◌||◌, ltb, leb, inl, inr,
  Bool-cases, List, [], ◌∷◌, ◌++◌, count, arith,
}
use mathlib.Core.List.{append-nil}
use ghost_userspace_o.ArrList.Links.{first_id, last_id}
use ghost_userspace_o.Avl.{Nodes, AvlTree}
use ghost_userspace_o.Avl.Insert.{note_min, note_max}
use ghost_userspace_o.Avl.Held.{once_self}
use ghost_userspace_o.Avl.Keys.{Over, Under, Over-at, Under-at}
use ghost_userspace_o.Avl.Invariant.{Cached}

-- The last of a list that is not empty stands in it.
pub last_of :
    (y : ℕ) (ys : List ℕ) → (m : ℕ) × (last_id (suc y) ys ≡ suc m) × (count m (y ∷ ys) ≢ 0)
last_of y [] = (y, refl, λ h. omega (arith, once_self y))
last_of y (z ∷ ys) = let (m, p, q) = last_of z ys in (m, p, λ h. q (omega arith))

pub last_id-append :
    (p : ℕ) (xs : List ℕ) (y : ℕ) (ys : List ℕ) → last_id p (xs ++ (y ∷ ys)) ≡ last_id (suc y) ys
last_id-append p [] y ys = refl
last_id-append p (x ∷ xs) y ys = last_id-append (suc x) xs y ys

abbrev MinOf : (ℕ → ℕ) → AvlTree → List ℕ → Type 0
MinOf key t xs = (t.min_id ≡ first_id xs 0) × ((e : ℕ) → t.min_id ≡ suc e → t.min_key ≡ key e)

abbrev MaxOf : (ℕ → ℕ) → AvlTree → List ℕ → Type 0
MaxOf key t xs = (t.max_id ≡ last_id 0 xs) × ((e : ℕ) → t.max_id ≡ suc e → t.max_key ≡ key e)

new_least : (key : ℕ → ℕ) (e : ℕ) (i : ℕ) → suc e ≡ suc i → key e ≡ key i
new_least key e i p = ap key (omega arith)

suc_not_0 : (m : ℕ) → (suc m == 0) ≡ false
suc_not_0 m = ground arith

note_min-MinOf :
    (key : ℕ → ℕ) (t : AvlTree) (e : ℕ) (xs ys : List ℕ)
    → MinOf key t (xs ++ ys)
    → Under key (key e) xs
    → Over key (suc (key e)) ys
    → MinOf key (note_min (key e) e t) (xs ++ (e ∷ ys))
unfolding note_min
note_min-MinOf key t e [] [] (p, q) u o =
    let b : (t.min_id == 0) ≡ true = rw (p) refl in rw (b) (refl, new_least key e)
note_min-MinOf key t e [] (y ∷ ys) (p, q) u (o, os) =
    let b : (t.min_id == 0) ≡ false = rw (p) (suc_not_0 y) in
    let c : ltb (key e) t.min_key ≡ true = ground (arith, q y p) in
    rw (b, c) (refl, new_least key e)
note_min-MinOf key t e (x ∷ xs) ys (p, q) (u, us) o =
    let b : (t.min_id == 0) ≡ false = rw (p) (suc_not_0 x) in
    let c : ltb (key e) t.min_key ≡ false = ground (arith, q x p) in rw (b, c) (p, q)

note_max-MaxOf :
    (key : ℕ → ℕ) (t : AvlTree) (e : ℕ) (xs ys : List ℕ)
    → MaxOf key t (xs ++ ys)
    → Under key (key e) xs
    → Over key (suc (key e)) ys
    → MaxOf key (note_max (key e) e t) (xs ++ (e ∷ ys))
unfolding note_max
note_max-MaxOf key t e [] [] (p, q) u o =
    let b : (t.max_id == 0) ≡ true = rw (p) refl in rw (b) (refl, new_least key e)
note_max-MaxOf key t e (x ∷ xs) [] (p, q) u o =
    let (m, l, i) = last_of x xs in
    let r : t.max_id ≡ suc m = p ∙ ap (last_id 0) (append-nil (x ∷ xs)) ∙ l in
    let b : (t.max_id == 0) ≡ false = rw (r) (suc_not_0 m) in
    let k : key m ≤ key e = Under-at key (key e) (x ∷ xs) m u i in
    let c : leb t.max_key (key e) ≡ true = ground (arith, q m r) in
    rw (b, c, last_id-append 0 (x ∷ xs) e []) (refl, new_least key e)
note_max-MaxOf key t e xs (y ∷ ys) (p, q) u o =
    let (m, l, i) = last_of y ys in
    let r : t.max_id ≡ suc m = p ∙ last_id-append 0 xs y ys ∙ l in
    let b : (t.max_id == 0) ≡ false = rw (r) (suc_not_0 m) in
    let k : suc (key e) ≤ key m = Over-at key (suc (key e)) (y ∷ ys) m o i in
    let c : leb t.max_key (key e) ≡ false = ground (arith, q m r) in
    rw (b, c, last_id-append 0 xs e (y ∷ ys)) (p ∙ last_id-append 0 xs y ys, q)

-- What the writes leave.
note_min-rest :
    (k e : ℕ) (t : AvlTree)
    → ((note_min k e t).max_id ≡ t.max_id)
      × ((note_min k e t).max_key ≡ t.max_key)
      × ((note_min k e t).root ≡ t.root)
      × ((note_min k e t).first_orphan_id ≡ t.first_orphan_id)
unfolding note_min
note_min-rest k e t = elim (Bool-cases ((t.min_id == 0) || ltb k t.min_key)) [
  | inl p ↦ rw (p) (refl, refl, refl, refl)
  | inr p ↦ rw (p) (refl, refl, refl, refl)
]

note_max-rest :
    (k e : ℕ) (t : AvlTree)
    → ((note_max k e t).min_id ≡ t.min_id)
      × ((note_max k e t).min_key ≡ t.min_key)
      × ((note_max k e t).root ≡ t.root)
      × ((note_max k e t).first_orphan_id ≡ t.first_orphan_id)
unfolding note_max
note_max-rest k e t = elim (Bool-cases ((t.max_id == 0) || leb t.max_key k)) [
  | inl p ↦ rw (p) (refl, refl, refl, refl)
  | inr p ↦ rw (p) (refl, refl, refl, refl)
]

pub note-rest :
    (k e : ℕ) (t : AvlTree)
    → ((note_max k e (note_min k e t)).root ≡ t.root)
      × ((note_max k e (note_min k e t)).first_orphan_id ≡ t.first_orphan_id)
note-rest k e t =
    let (a, b, r, f) = note_max-rest k e (note_min k e t) in
    let (c, d, r', f') = note_min-rest k e t in (r ∙ r', f ∙ f')

pub note-Cached :
    (n n' : Nodes) (t : AvlTree) (root e : ℕ) (xs ys : List ℕ)
    → n'.key ≡ n.key
    → Cached n t (xs ++ ys)
    → Under n.key (n.key e) xs
    → Over n.key (suc (n.key e)) ys
    → Cached n'
        (note_max (n.key e) e (note_min (n.key e) e (record t { root = root })))
        (xs ++ (e ∷ ys))
note-Cached n n' t root e xs ys k c u o =
    let s : AvlTree = record t { root = root } in
    let m = note_min (n.key e) e s in
    let (l, lk) = note_min-MinOf n.key s e xs ys (c.min_id, c.min_key) u o in
    let (a, b, r, f) = note_min-rest (n.key e) e s in
    let (g, gk) =
      note_max-MaxOf n.key m e xs ys (a ∙ c.max_id, λ i p. b ∙ c.max_key i (sym a ∙ p)) u o in
    let (a', b', r', f') = note_max-rest (n.key e) e m in
    record {
      min_id = a' ∙ l;
      min_key = λ i p. b' ∙ lk i (sym a' ∙ p) ∙ ap (λ key. key i) (sym k);
      max_id = g;
      max_key = λ i p. gk i p ∙ ap (λ key. key i) (sym k);
    }
