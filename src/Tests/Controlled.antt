-- ===== src/Tests/Controlled.antt =====
-- Shots that control on concrete input.
use daux4pcs2m.Base.{◌*◌, none, false, List, [], ◌∷◌, ◌≡◌, ◌≢◌, refl, arith, replicate}
use daux4pcs2m.Base.Int.{ℤ, pos}
use daux4pcs2m.Real.Rational.{rational}
use daux4pcs2m.Memory.Result.{ok}
use daux4pcs2m.Memory.Buffer.{live, allocate, HasSize-allocate}
use daux4pcs2m.Vs.State.{Vs}
use daux4pcs2m.Vs.Cycle.{fastz_run}
use daux4pcs2m.Daux.Options.{options_init}
use daux4pcs2m.Daux.Shot.{Daq}
use daux4pcs2m.Daux.Shot.Acquire.{IsOpen}
use daux4pcs2m.Daux.Shot.Control.{timed}
use daux4pcs2m.Daux.Main.{Program}
use daux4pcs2m.Daux.Main.Archived.{IsArchived}
use daux4pcs2m.Daux.Main.Controlled.{controlled, controlled_shot, controlled_uneven}
use daux4pcs2m.Tests.Reflective.{board}
use daux4pcs2m.Tests.Serve.{server, env, same, program, num}
use daux4pcs2m.Tests.Shot.{seven, factors, busy, busy-IsReady}

-- The channels of two cycles.
abbrev measured : List (List ℤ)
measured = replicate 96 (pos 1) ∷ replicate 96 (pos 2) ∷ []

abbrev daq : Daq board Unit
daq = record {
  timebase = live (num 0 ∷ num 0 ∷ []);
  signal_data = allocate (pos (96 * 2)) (num 0);
  baseline = replicate 96 (num 0);
  vs = busy;
  link = record { result = 0; board = none };
}

daq-IsOpen : IsOpen 2 busy daq
daq-IsOpen = record {
  timebase = refl;
  signal_data = HasSize-allocate (96 * 2) (num 0);
  baseline = refl;
  vs = refl;
}

abbrev controls : Program server board Unit
controls = record program { daq = daq }

controlled_shot_example :
    (q : Program server board Unit) × (t : Vs Unit) × (controlled server seven same same env
        options_init factors
        (num 1)
        (pos 7)
        2
        measured
        controls
      ≡ ok q)
    × (q.daq.vs ≡ t)
    × (fastz_run seven false factors (timed (num 1) 0 measured) busy ≡ ok t)
    × (t.vs_cycle ≡ 2)
    × IsArchived server (pos 7) 2 q.daq t [] q.session
controlled_shot_example =
    controlled_shot server seven same same env options_init factors (num 1) (pos 7) 2 busy measured
      controls refl refl refl refl daq-IsOpen busy-IsReady refl refl refl
      (omega arith, (omega arith, tt))

-- The acquisition opened for one cycle, and the control for two.
abbrev short : Program server board Unit
short = record program {
  daq = record daq { timebase = live (num 0 ∷ []); signal_data = allocate (pos (96 * 1)) (num 0) };
}

short-IsOpen : IsOpen 1 busy short.daq
short-IsOpen = record {
  timebase = refl;
  signal_data = HasSize-allocate (96 * 1) (num 0);
  baseline = refl;
  vs = refl;
}

controlled_uneven_example :
    controlled server seven same same env options_init factors
      (num 1)
      (pos 7)
      1
      (replicate 96 (pos 1) ∷ [])
      short
    ≢ ok short
controlled_uneven_example =
    controlled_uneven server seven same same env options_init factors (num 1) (pos 7) 1 2 busy
      (replicate 96 (pos 1) ∷ []) short short refl refl refl refl short-IsOpen busy-IsReady refl
      refl refl (omega arith, tt) (λ e. omega arith)
