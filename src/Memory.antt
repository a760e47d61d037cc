-- ===== src/Memory.antt =====
-- What C leaves to the programmer: arrays that a pointer names, and the ways to misuse them. A step
-- that may do so returns a `Result`, where `err` stands for undefined behaviour or for an exit.
pub mod Result
pub mod Buffer
pub mod Copy
pub mod Print
