-- ===== src/Andi.antt =====
-- patches/code/fbview2/df_andi.c: penguins that walk over the screen, in a linked list. DirectFB is a
-- parameter where it answers: the size of the screen, the mask's pixels, and the keys.
pub mod Penguin
pub mod Store
pub mod Draw
pub mod Mask
pub mod Main
mod Tests
