-- ===== src/Go.antt =====
-- The parts of Go's standard library that the repository calls, where they are small enough to be
-- written out, and the record of those that are not (regexp, the Unicode tables).
pub mod Libs
pub mod Strings
pub mod Strconv
pub mod Net
