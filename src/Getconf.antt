-- ===== src/Getconf.antt =====
-- patches/code/getconf.c: prints configuration variables of the system. The C library (sysconf,
-- confstr, pathconf, malloc, getopt, and the constants of its headers) is a parameter.
pub mod Table
pub mod Print
pub mod Main
mod Tests
