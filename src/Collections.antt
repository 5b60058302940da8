-- ===== src/Collections.antt =====
-- The ordered collections of the Rust standard library (std::collections) that the program uses,
-- as sorted lists without repetition: iteration is in key order, and `==` is equality of lists.
pub mod Key
pub mod BTreeSet
pub mod BTreeMap
