-- ===== src/Js.antt =====
-- The parts of the JavaScript standard library that the program uses: `Map` and `Set` with text
-- keys, and the texts that template literals build.
pub mod Map
pub mod Set
pub mod Scalar
pub mod Text
pub mod Uri
pub mod Int
pub mod Cut
pub mod Replace
