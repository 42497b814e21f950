-- ===== src/Lib.antt =====
-- Verification of the C programs of tcb, the scripts that build a toolchain, a Linux kernel and a file
-- system for the OpenRISC simulator jor1k. The repository is mostly build files; its own programs are
-- small C files, and each is modelled by itself.
--
-- Base holds what all share: numbers, lists, results of C code (a value, exit, undefined behaviour, or
-- still running), the string functions of the C library (Base/Text), and memory (Base/Memory).
-- Fs2xml: tools/fs2xml.c: the tool that merges .tar.bz2 packages into one inode table and writes
-- it out as a directory tree, fs.xml and fs.json.
-- Keyboard: patches/linux/opencores-kbd.c: the driver of the OpenCores keyboard controller. The
-- kernel is a parameter: what each of its calls answers. What the driver holds of the kernel is a
-- record of flags.
-- VirtSound: patches/linux/fsi.c: the driver of jor1k's virtual sound device. The kernel is a
-- parameter: what each of its calls answers; the device is its registers.
-- Demos: The demo of patches/code that is modelled: Pascal's triangle (pascal.c).
-- Getconf: patches/code/getconf.c: prints configuration variables of the system. The C library
-- (sysconf, confstr, pathconf, malloc, getopt, and the constants of its headers) is a parameter.
-- Mke2img: tools/mke2img.c: copies a directory tree into an ext2 image. libext2fs is a parameter:
-- what it answers to a call, after the calls and messages so far. The tree is what readdir,
-- lstat, open, read, readlink and chdir give.
-- Fbview: patches/code/fbview: the viewer of images on the framebuffer. Memory is a list of
-- bytes, an address is an index into it, and an access out of range is `fault`. Main is the
-- program, on the parts that read a file (Bmp, Jpeg, Png), change an image (Scale, Rotate), and
-- drive the screen (Palette, Render, Pixel). Floats, libpng and libjpeg are parameters.
-- Starfield: patches/code/starfield: the stars (Stars), the fader that the threads run on the
-- framebuffer and the part of the screen that each thread gets (Fader), main up to its threads
-- (Main), the semaphores between a thread and main while the program runs (Threads), and to its
-- end (Ending).
-- Andi: patches/code/fbview2/df_andi.c: penguins that walk over the screen, in a linked list.
-- DirectFB is a parameter where it answers: the size of the screen, the mask's pixels, and the
-- keys.
--
-- An int is its bit pattern where its sign matters, with the wrap written out; a C string is the list
-- of its bytes; an access out of range is the result `fault`. A loop that does not follow a list takes
-- fuel, its last result is `running`, and a theorem says what fuel is enough.
--
-- Not modelled: bitmap_load of the viewer's bitmap.c (patches/code/fbview), which is in no build
-- and calls a function that is nowhere declared; ds_gpm.c, which the build leaves out, and
-- rgb2yuv420.c, which is another project's; the tables of patches/linux/fsi.c that describe the
-- device to the kernel; what df_andi.c only hands to DirectFB; the other demos of patches/code
-- (fbview2/fbview.c, fbdemo.c, hello.c); the build scripts, patches of other projects, the
-- obfuscated demos (sloane, eastman), and the third-party driver dummy_sound.c.
pub mod Base
pub mod Fs2xml
pub mod Keyboard
pub mod VirtSound
pub mod Demos
pub mod Getconf
pub mod Mke2img
pub mod Fbview
pub mod Starfield
pub mod Andi
