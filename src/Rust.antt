-- ===== src/Rust.antt =====
-- What the program uses of Rust's standard library: UTF-8, decimal integers, byte order, splitting.
pub mod Utf8
pub mod Integer
pub mod Split
pub mod Trim
