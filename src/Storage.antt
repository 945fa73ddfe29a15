-- ===== src/Storage.antt =====
-- src/storage: values with an expiry, and the store over the database.
pub mod Value
pub mod Rocks
