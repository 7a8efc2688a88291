-- ===== src/Zk.antt =====
-- The zero-knowledge side of the chain: the Merkle tree of the notes and of the identities, and the
-- indexed tree of the stake nullifiers over it.
pub mod Merkle
pub mod Indexed
