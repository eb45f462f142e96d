-- ===== src/Memory.antt =====
-- src/memory: the flat store of facts. Similarity is the lexical test of `the same fact`, Facts the
-- entries and their index, and the other modules its operations.
pub mod Similarity
pub mod Facts
pub mod View
pub mod Removal
pub mod Write
pub mod Review
