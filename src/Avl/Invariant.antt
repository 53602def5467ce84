-- ===== src/Avl/Invariant.antt =====
-- The invariant of the tree of lib/avl.bpf.h: what the nodes and the head stand for.
use ghost_userspace_o.Base.{ℕ, suc, ◌+◌, ◌≤◌, ◌≡◌, ◌≢◌, refl, true, false, List, [], count, arith}
use ghost_userspace_o.ArrList.Links.{first_id, last_id}
use ghost_userspace_o.Avl.{Nodes, AvlTree, avl_tree_init, max_avl_height}
use ghost_userspace_o.Avl.Orphans.Listed.{Listed}
use ghost_userspace_o.Avl.Tree.{Tree, leaf, inorder, height}
use ghost_userspace_o.Avl.Spot.{Holds}
use ghost_userspace_o.Avl.Keys.{Sorted}

-- The nodes hold a balanced tree that reads xs, in the order of the keys, and that the loops can
-- walk.
pub record InTree (n : Nodes) (root : ℕ) (xs : List ℕ) : Type 0 where
  pub tree : Tree
  pub same : inorder tree ≡ xs
  pub holds : Holds n root tree
  pub low : height tree ≤ max_avl_height
  pub sorted : Sorted n.key xs

-- The cached least and greatest nodes are the first and the last of xs.
pub record Cached (n : Nodes) (t : AvlTree) (xs : List ℕ) : Type 0 where
  pub min_id : t.min_id ≡ first_id xs 0
  pub min_key : (e : ℕ) → t.min_id ≡ suc e → t.min_key ≡ n.key e
  pub max_id : t.max_id ≡ last_id 0 xs
  pub max_key : (e : ℕ) → t.max_id ≡ suc e → t.max_key ≡ n.key e

-- A tree of the nodes xs, with the orphans os.
pub record IsAvl (n : Nodes) (t : AvlTree) (xs os : List ℕ) : Type 0 where
  pub in_tree : InTree n t.root xs
  pub cached : Cached n t xs
  pub orphaned : Listed n.orphan_ids t.first_orphan_id os
  pub flags_tree : (e : ℕ) → count e xs ≢ 0 → n.is_orphan e ≡ false
  pub flags_orphan : (e : ℕ) → count e os ≢ 0 → n.is_orphan e ≡ true
  pub distinct : (e : ℕ) → count e xs + count e os ≤ 1

-- avl_tree_init makes an empty tree.
pub init-IsAvl : (n : Nodes) → IsAvl n avl_tree_init [] []
init-IsAvl n = record {
  in_tree = record {
    tree = leaf;
    same = refl;
    holds = record { kids = refl; up = tt; bal = tt };
    low = omega arith;
    sorted = tt;
  };
  cached = record {
    min_id = refl;
    min_key = λ e p. absurd (omega arith);
    max_id = refl;
    max_key = λ e p. absurd (omega arith);
  };
  orphaned = record { starts = refl; links = tt };
  flags_tree = λ e h. absurd (h refl);
  flags_orphan = λ e h. absurd (h refl);
  distinct = λ e. omega arith;
}
