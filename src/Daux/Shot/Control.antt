-- ===== src/Daux/Shot/Control.antt =====
-- A shot of daux.c that controls: the loop over the cycles and `fastz` of vscontrol.h together.
use daux4pcs2m.Base.{ℕ, suc, ◌+◌, ◌≤◌, false, List, [], ◌∷◌, ◌≡◌, refl, arith, length, ap, ◌∙◌}
use daux4pcs2m.Base.Int.{ℤ}
use daux4pcs2m.Real.{Ieee, Float, Dbl}
use daux4pcs2m.Memory.Result.{ok, >>=-eq-ok, ok-injective}
use daux4pcs2m.Memory.Buffer.{HasSize, write, write_within}
use daux4pcs2m.Memory.Copy.{first_within}
use daux4pcs2m.Rfm.{Rfm2g}
use daux4pcs2m.Rfm.Helper.{transmit, bytes_of_shorts}
use daux4pcs2m.Vs.State.{Vs}
use daux4pcs2m.Vs.Cycle.{Calc, fastz, fastz_run}
use daux4pcs2m.Vs.Cycle.Arrays.{HaveChannels}
use daux4pcs2m.Vs.Cycle.Ready.{IsReady, fastz_run-IsReady}
use daux4pcs2m.Vs.Cycle.Record.{fastz_run_fits}
use daux4pcs2m.Daux.Options.{Options}
use daux4pcs2m.Daux.Shot.{Daq, process, run, cycles, chns, time_of}
use daux4pcs2m.Daux.Shot.Acquire.{IsOpen, HaveData, run_within}

module _ ⦃m : Ieee⦄ (tick : Dbl) where
  -- The cycles from `sss` on as `fastz` gets them: the data with the time.
  abbrev pub timed : ℕ → List (List ℤ) → List (List ℤ × Float)
  timed sss [] = []
  timed sss (raw ∷ raws) = (raw, time_of tick sss) ∷ timed (sss + 1) raws

  length-timed : (sss : ℕ) (raws : List (List ℤ)) → length (timed sss raws) ≡ length raws
  length-timed sss [] = refl
  length-timed sss (raw ∷ raws) = ap suc (length-timed (sss + 1) raws)

  HaveChannels-timed :
      (sss : ℕ) (raws : List (List ℤ)) → HaveData raws → HaveChannels (timed sss raws)
  HaveChannels-timed sss [] full = _
  HaveChannels-timed sss (raw ∷ raws) (now, later) = (now, HaveChannels-timed (sss + 1) raws later)

module _ ⦃m : Ieee⦄ {api : Rfm2g} {I : Type 0} (calc : Calc I) (o : Options) (calib : List Float)
    (tick : Dbl) (n : ℕ) where
  process-fastz :
      (raw : List ℤ) (time : Float) (d : Daq api I) (s t : Vs I)
      → o.acqonly ≡ false
      → chns ≤ length raw
      → fastz calc o.istest calib raw time s ≡ ok t
      → (sent : List ℤ) × (process calc o calib tick n raw time d.link s
          ≡ ok (transmit api (bytes_of_shorts sent) d.link, t))
  unfolding process
  process-fastz raw time d s t controls channels e =
      let (sent, es, _) = first_within raw chns channels in (sent, rw controls (rw es (rw e refl)))

  -- When the control goes right on the data and the times of the cycles, so do the cycles.
  cycles-control :
      (sss : ℕ) (raws : List (List ℤ)) (s t : Vs I) (d : Daq api I)
      → o.acqonly ≡ false
      → length calib ≡ chns
      → IsOpen n s d
      → sss + length raws ≤ n
      → HaveData raws
      → fastz_run calc o.istest calib (timed tick sss raws) s ≡ ok t
      → (d' : Daq api I) × (cycles calc o calib tick n sss raws d ≡ ok d') × IsOpen n t d'
  unfolding cycles fastz_run
  cycles-control sss [] s t d controls factors h room full e = (
    d,
    refl,
    record {
      timebase = h.timebase;
      signal_data = h.signal_data;
      baseline = h.baseline;
      vs = h.vs ∙ ok-injective e;
    },
  )
  cycles-control sss (raw ∷ raws) s t d controls factors h room (now, later) e =
      let (s1, e1, f1) = >>=-eq-ok (fastz calc o.istest calib raw (time_of tick sss) s) _ e in
      let (sent, ep) = process-fastz raw (time_of tick sss) d s s1 controls now e1 in
      let r = run_within calc o calib tick n sss raw s s1 _ d ep factors h (omega arith) now in
      let k = r.holds in
      let (timebase, ew, ht, _) =
        write_within r.value.timebase n sss (time_of tick sss) k.timebase (omega arith) in
      let next : Daq api I = record r.value { timebase = timebase } in
      let open_next : IsOpen n s1 next = record {
        timebase = ht;
        signal_data = k.signal_data;
        baseline = k.baseline;
        vs = k.vs;
      } in
      let (d', e', k') =
        cycles-control (sss + 1) raws s1 t next controls factors open_next (omega arith) later f1 in
      (d', rw r.returns (rw ew e'), k')

  -- A shot that acquires, saves and controls, in normal mode, goes right from the first to the last
  -- cycle, whatever the data and the control library are: no access is out of bounds, and afterwards
  -- the control is in the state that `fastz` reaches on the data and the times of the cycles, with
  -- each of them counted. It wants the arrays of the acquisition for `n` cycles and those of the control
  -- for `l`, room in both for all cycles, 96 calibration factors and 96 channels in each cycle.
  pub cycles-IsReady :
      (l : ℕ) (raws : List (List ℤ)) (s : Vs I) (d : Daq api I)
      → o.acqonly ≡ false
      → o.istest ≡ false
      → length calib ≡ chns
      → IsOpen n s d
      → IsReady l s
      → length raws ≤ n
      → s.vs_cycle + length raws ≤ l
      → HaveData raws
      → (d' : Daq api I) × (t : Vs I) × (cycles calc o calib tick n 0 raws d ≡ ok d')
        × (fastz_run calc false calib (timed tick 0 raws) s ≡ ok t)
        × IsOpen n t d'
        × IsReady l t
        × (t.vs_cycle ≡ s.vs_cycle + length raws)
  cycles-IsReady l raws s d controls normal factors h ready room_n room_l full =
      let count = length-timed tick 0 raws in
      let (t, e, ready', counted) =
        fastz_run-IsReady l calc calib (timed tick 0 raws) s ready (omega arith) factors
          (HaveChannels-timed tick 0 raws full) in
      let (d', e', h') =
        cycles-control 0 raws s t d controls factors h (omega arith) full (rw normal e) in
      (d', t, e', e, h', ready', omega arith)

  run-fastz :
      (sss : ℕ) (raw : List ℤ) (d d1 : Daq api I)
      → o.acqonly ≡ false
      → run calc o calib tick n sss raw d ≡ ok d1
      → fastz calc o.istest calib raw (time_of tick sss) d.vs ≡ ok d1.vs
  unfolding run process
  run-fastz sss raw d d1 controls e = grind arith

  -- And when the cycles go right, so has the control.
  pub cycles-fastz_run :
      (sss : ℕ) (raws : List (List ℤ)) (d d' : Daq api I)
      → o.acqonly ≡ false
      → cycles calc o calib tick n sss raws d ≡ ok d'
      → fastz_run calc o.istest calib (timed tick sss raws) d.vs ≡ ok d'.vs
  unfolding cycles fastz_run
  cycles-fastz_run sss [] d d' controls e = ap (λ x. ok x.vs) (ok-injective e)
  cycles-fastz_run sss (raw ∷ raws) d d' controls e =
      let (d1, e1, f1) = >>=-eq-ok (run calc o calib tick n sss raw d) _ e in
      let (t, ew, later) = >>=-eq-ok (write d1.timebase sss (time_of tick sss)) _ f1 in
      rw (run-fastz sss raw d d1 controls e1)
        (cycles-fastz_run (sss + 1) raws (record d1 { timebase = t }) d' controls later)

  -- The cycles of a shot that controls are no more than the control has room for.
  pub cycles_fit :
      (l : ℕ) (raws : List (List ℤ)) (d d' : Daq api I)
      → o.acqonly ≡ false
      → HasSize l d.vs.trace.timebase
      → d.vs.vs_cycle ≤ l
      → cycles calc o calib tick n 0 raws d ≡ ok d'
      → d.vs.vs_cycle + length raws ≤ l
  cycles_fit l raws d d' controls size begun e =
      let (fits, counted) =
        fastz_run_fits calc o.istest calib (timed tick 0 raws) l d.vs d'.vs size begun
          (cycles-fastz_run 0 raws d d' controls e) in
      omega (arith, length-timed tick 0 raws)
