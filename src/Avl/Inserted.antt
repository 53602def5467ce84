-- ===== src/Avl/Inserted.antt =====
-- The proofs of avl_tree_insert (lib/avl.bpf.h).
pub mod Retrace
pub mod Descend
pub mod Attach
pub mod Cache
pub mod Orphan
pub mod Refine
