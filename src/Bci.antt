-- ===== src/Bci.antt =====
-- src/bci: the built-in classes.
pub mod NameTable
