-- ===== src/Vs.antt =====
-- vscontrol.h: the control of the VS coil.
pub mod State
pub mod Linear
pub mod Ztarget
pub mod Init
pub mod Cycle
pub mod Clean
pub mod Digital
pub mod Archive
