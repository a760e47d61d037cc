-- ===== src/Real.antt =====
-- The floating-point interface of the model, and a value of it that computes.
pub mod Arith
pub mod Rational
unfoldable pub use Arith.*
