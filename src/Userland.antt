-- ===== src/Userland.antt =====
-- Userland/CodeModule/lib: the standard library of user programs. A C string is the list of its bytes
-- before the terminator; reading past them finds the terminator, 0.
pub mod Calls
pub mod Heap
pub mod Ctype
pub mod Numbers
pub mod Start
pub mod Strings
pub mod Stdio
pub mod Stdlib
