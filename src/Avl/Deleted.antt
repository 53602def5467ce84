-- ===== src/Avl/Deleted.antt =====
-- The proofs of avl_tree_delete (lib/avl.bpf.h).
pub mod Step
pub mod Retrace
pub mod Replace
pub mod Unlink
pub mod Next
pub mod Cuts
pub mod Deep
pub mod Unlinked
pub mod Cache
pub mod Refine
pub mod Orphan
