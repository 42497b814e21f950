-- ===== src/Keyboard.antt =====
-- patches/linux/opencores-kbd.c: the driver of the OpenCores keyboard controller. The kernel is a
-- parameter: what each of its calls answers. What the driver holds of the kernel is a record of flags.
pub mod Probe
pub mod Isr
mod Tests
