-- ===== src/Crates.antt =====
-- Third-party code that the program calls: each is an interface, with its documented laws.
pub mod Memchr
pub mod RocksDb
pub mod BytesMut
pub mod Itoa
pub mod Prometheus
pub mod Semaphore
