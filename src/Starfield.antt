-- ===== src/Starfield.antt =====
-- patches/code/starfield: the stars (Stars), the fader that the threads run on the framebuffer and
-- the part of the screen that each thread gets (Fader), main up to its threads (Main), the semaphores
-- between a thread and main while the program runs (Threads), and to its end (Ending).
pub mod Fader
pub mod Threads
pub mod Ending
pub mod Main
pub mod Stars
mod Tests
