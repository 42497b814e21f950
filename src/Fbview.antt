-- ===== src/Fbview.antt =====
-- patches/code/fbview: the viewer of images on the framebuffer. Memory is a list of bytes, an address
-- is an index into it, and an access out of range is `fault`. Main is the program, on the parts that
-- read a file (Bmp, Jpeg, Png), change an image (Scale, Rotate), and drive the screen (Palette, Render,
-- Pixel). Floats, libpng and libjpeg are parameters.
pub mod Sizes
pub mod Pixel
pub mod Render
pub mod Rotate
pub mod Raster
pub mod Samples
pub mod Png
pub mod Jpeg
pub mod Scale
pub mod Params
pub mod Palette
pub mod Bmp
pub mod View
pub mod Player
pub mod Main
mod Tests
mod Runs
