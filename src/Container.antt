-- ===== src/Container.antt =====
-- src/common/container: the growable array and the string-keyed hash table.
pub mod Array
pub mod HashTable
