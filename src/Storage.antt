-- ===== src/Storage.antt =====
-- The storage adapters: src/storage-adapter.
pub mod Memory
