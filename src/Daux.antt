-- ===== src/Daux.antt =====
-- The main program, daux.c: its options, its calibration file, the cycles of a shot and the loop
-- over the shots.
pub mod Message
pub mod Options
pub mod Calib
pub mod Shot
pub mod Count
pub mod Signals
pub mod Main
