-- ===== src/Vs/Clean/First.antt =====
-- The first shot of a program whose ztarget file has neither algorithm, in vscontrol.h.
use daux4pcs2m.Base.{false, ◌≡◌}
use daux4pcs2m.Base.Text.{Text}
use daux4pcs2m.Real.{Ieee}
use daux4pcs2m.Vs.State.{Vs}

module _ ⦃m : Ieee⦄ {I : Type 0} where
  open m use {widen, narrow, trunc}

  -- The PID memory of a shot with neither algorithm is that of before.
  abbrev KeepsScratch : Vs I → Vs I × Text → Type 0
  KeepsScratch s (t, text) = t.algmask.cc ≡ false → t.algmask.lm ≡ false → t.scratch ≡ s.scratch
