-- ===== src/Avl/Keys.antt =====
-- The keys of the nodes of lib/avl.bpf.h, in order.
use ghost_userspace_o.Base.{
  ℕ, suc, ◌≤◌, ◌≡◌, ◌≢◌, refl, ap, ltb, ◌==◌, ==_iff, ==_refl, Bool-cases, inl, inr, ◌+◌,
  if◌then◌else◌, true, false, List, [], ◌∷◌, ◌++◌, count, arith,
}

-- Every key is at least, or at most, k.
abbrev pub Over : (ℕ → ℕ) → ℕ → List ℕ → Type 0
Over key k [] = Unit {0}
Over key k (x ∷ xs) = (k ≤ key x) × Over key k xs

abbrev pub Under : (ℕ → ℕ) → ℕ → List ℕ → Type 0
Under key k [] = Unit {0}
Under key k (x ∷ xs) = (key x ≤ k) × Under key k xs

abbrev pub Sorted : (ℕ → ℕ) → List ℕ → Type 0
Sorted key [] = Unit {0}
Sorted key (x ∷ xs) = Over key (key x) xs × Sorted key xs

-- A node goes behind those of its key.
unfoldable pub insert_sorted : (ℕ → ℕ) → ℕ → List ℕ → List ℕ
insert_sorted key e [] = e ∷ []
insert_sorted key e (x ∷ xs) =
    if ltb (key e) (key x) then e ∷ (x ∷ xs) else x ∷ insert_sorted key e xs

pub Over-append :
    (key : ℕ → ℕ) (k : ℕ) (xs ys : List ℕ) → Over key k xs → Over key k ys → Over key k (xs ++ ys)
Over-append key k [] ys p q = q
Over-append key k (x ∷ xs) ys (p, ps) q = (p, Over-append key k xs ys ps q)

pub Over-split :
    (key : ℕ → ℕ) (k : ℕ) (xs ys : List ℕ) → Over key k (xs ++ ys) → Over key k xs × Over key k ys
Over-split key k [] ys p = (tt, p)
Over-split key k (x ∷ xs) ys (p, ps) = let (q, r) = Over-split key k xs ys ps in ((p, q), r)

pub Over-mono : (key : ℕ → ℕ) (j k : ℕ) (xs : List ℕ) → j ≤ k → Over key k xs → Over key j xs
Over-mono key j k [] h p = tt
Over-mono key j k (x ∷ xs) h (p, ps) = (omega arith, Over-mono key j k xs h ps)

pub Under-append :
    (key : ℕ → ℕ) (k : ℕ) (xs ys : List ℕ)
    → Under key k xs
    → Under key k ys
    → Under key k (xs ++ ys)
Under-append key k [] ys p q = q
Under-append key k (x ∷ xs) ys (p, ps) q = (p, Under-append key k xs ys ps q)

pub Under-mono : (key : ℕ → ℕ) (j k : ℕ) (xs : List ℕ) → j ≤ k → Under key j xs → Under key k xs
Under-mono key j k [] h p = tt
Under-mono key j k (x ∷ xs) h (p, ps) = (omega arith, Under-mono key j k xs h ps)

pub Sorted-append :
    (key : ℕ → ℕ) (k : ℕ) (xs ys : List ℕ)
    → Under key k xs
    → Over key k ys
    → Sorted key xs
    → Sorted key ys
    → Sorted key (xs ++ ys)
Sorted-append key k [] ys u o s t = t
Sorted-append key k (x ∷ xs) ys (p, ps) o (q, s) t = (
  Over-append key (key x) xs ys q (Over-mono key (key x) k ys p o),
  Sorted-append key k xs ys ps o s t,
)

pub Sorted-split :
    (key : ℕ → ℕ) (xs ys : List ℕ) → Sorted key (xs ++ ys) → Sorted key xs × Sorted key ys
Sorted-split key [] ys s = (tt, s)
Sorted-split key (x ∷ xs) ys (o, s) =
    let (p, q) = Sorted-split key xs ys s in
    let (a, b) = Over-split key (key x) xs ys o in ((a, p), q)

-- What stands before a node in order has no greater key.
pub Sorted-Under :
    (key : ℕ → ℕ) (xs : List ℕ) (e : ℕ) (ys : List ℕ)
    → Sorted key (xs ++ (e ∷ ys))
    → Under key (key e) xs
Sorted-Under key [] e ys s = tt
Sorted-Under key (x ∷ xs) e ys (o, s) =
    let (a, (p, b)) = Over-split key (key x) xs (e ∷ ys) o in (p, Sorted-Under key xs e ys s)

-- The node's place, by its key, is where the insertion puts it.
pub insert_sorted-place :
    (key : ℕ → ℕ) (e : ℕ) (xs ys : List ℕ)
    → Under key (key e) xs
    → Over key (suc (key e)) ys
    → insert_sorted key e (xs ++ ys) ≡ xs ++ (e ∷ ys)
unfolding insert_sorted
insert_sorted-place key e [] [] u o = refl
insert_sorted-place key e [] (y ∷ ys) (u) (o, os) =
    let t : ltb (key e) (key y) ≡ true = ground arith in rw (t) refl
insert_sorted-place key e (x ∷ xs) ys (p, ps) o =
    let t : ltb (key e) (key x) ≡ false = ground arith in
    rw (t) (ap (λ zs. x ∷ zs) (insert_sorted-place key e xs ys ps o))

pub Over-at :
    (key : ℕ → ℕ) (k : ℕ) (xs : List ℕ) (e : ℕ) → Over key k xs → count e xs ≢ 0 → k ≤ key e
Over-at key k [] e o h = absurd (h refl)
Over-at key k (x ∷ xs) e (p, o) h = ground (arith, Over-at key k xs e o, ==_iff x e)

pub Under-at :
    (key : ℕ → ℕ) (k : ℕ) (xs : List ℕ) (e : ℕ) → Under key k xs → count e xs ≢ 0 → key e ≤ k
Under-at key k [] e o h = absurd (h refl)
Under-at key k (x ∷ xs) e (p, o) h = ground (arith, Under-at key k xs e o, ==_iff x e)

-- The list without the first that is e.
unfoldable pub erase : ℕ → List ℕ → List ℕ
erase e [] = []
erase e (x ∷ xs) = let rest = erase e xs in if x == e then xs else x ∷ rest

pub erase-middle : (e : ℕ) (ys zs : List ℕ) → count e ys ≡ 0 → erase e (ys ++ (e ∷ zs)) ≡ ys ++ zs
unfolding erase
erase-middle e [] zs h = rw (==_refl e) refl
erase-middle e (y ∷ ys) zs h = elim (Bool-cases (y == e)) [
  | inl t ↦ absurd (other y e (count e ys) t h)
  | inr t ↦ rw (t) (ap (λ xs. y ∷ xs) (erase-middle e ys zs (rest y e (count e ys) t h)))
]
  where
    other : (y e k : ℕ) → (y == e) ≡ true → (if y == e then 1 else 0) + k ≡ 0 → ⊥
    other y e k t h = ground (arith, t, h)

    rest : (y e k : ℕ) → (y == e) ≡ false → (if y == e then 1 else 0) + k ≡ 0 → k ≡ 0
    rest y e k t h = ground (arith, t, h)
