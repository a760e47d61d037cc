-- ===== src/Tests.antt =====
-- Shots and calls on concrete input, on the fractions of Real/Rational.
pub mod Control
pub mod Waveform
pub mod File
pub mod Shot
pub mod Archive
pub mod Main
pub mod Reflective
pub mod Device
pub mod Serve
pub mod Loop
pub mod Controlled
pub mod Start
pub mod Prepared
pub mod Calib
pub mod Served
pub mod Cleaned
