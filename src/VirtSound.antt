-- ===== src/VirtSound.antt =====
-- patches/linux/fsi.c: the driver of jor1k's virtual sound device. The kernel is a parameter: what each
-- of its calls answers; the device is its registers.
pub mod Ops
pub mod Probe
pub mod Stream
mod Tests
