-- ===== src/Demos.antt =====
-- The demo of patches/code that is modelled: Pascal's triangle (pascal.c).
pub mod Pascal
mod Tests
