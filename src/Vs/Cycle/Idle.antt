-- ===== src/Vs/Cycle/Idle.antt =====
-- Which algorithm of vscontrol.h's `fastz` decides the command of a cycle.
use daux4pcs2m.Base.{Bool, true, false, List, ◌≡◌, ap, sym, ◌∙◌, arith, ◌&&◌}
use daux4pcs2m.Base.Int.{ℤ}
use daux4pcs2m.Real.{Ieee, Float}
use daux4pcs2m.Memory.Result.{ok, >>=-eq-ok, ok-injective}
use daux4pcs2m.Memory.Buffer.{read, write, read-write}
use daux4pcs2m.Vs.State.{Vs}
use daux4pcs2m.Vs.Cycle.{
  Calc, fastz, stamp, coil_current, limited, limited_test, command, nominal, within,
}

module _ ⦃m : Ieee⦄ {I : Type 0} where
  -- Neither algorithm takes part in the cycle.
  pub record IsIdle (time : Float) (s : Vs I) : Type 0 where
    pub cc_off : (s.algmask.cc && within time s.config.cc_st s.config.cc_et) ≡ false
    pub lm_off :
        (s.algmask.lm && s.algmask.ip && within time s.config.limit_st s.config.limit_et) ≡ false

  -- In a cycle outside the windows of both algorithms, or without them, nothing of the control is
  -- touched: the filter, the PID memory and the arrays of positions, errors, PID outputs and commands
  -- stay, so that the command that is sent is the one that stood in the array, as it was allocated.
  pub fastz_idle :
      (calc : Calc I) (istest : Bool) (calib : List Float) (raw : List ℤ) (time : Float)
      (s t : Vs I)
      → IsIdle time s
      → fastz calc istest calib raw time s ≡ ok t
      → (t.lpf ≡ s.lpf)
        × (t.scratch ≡ s.scratch)
        × (t.trace.zpos ≡ s.trace.zpos)
        × (t.trace.error ≡ s.trace.error)
        × (t.trace.derror ≡ s.trace.derror)
        × (t.trace.pvector ≡ s.trace.pvector)
        × (t.trace.precmd ≡ s.trace.precmd)
        × (read s.trace.precmd s.vs_cycle ≡ ok t.v_in.vs1_ctrl_cmd)
  unfolding fastz stamp coil_current limited command
  fastz_idle calc istest calib raw time s t idle e = ground arith

  -- The parts of the state that decide what the limited algorithm does.
  record Unmoved (s t : Vs I) : Type 0 where
    algmask : t.algmask ≡ s.algmask
    config : t.config ≡ s.config
    targets : t.targets ≡ s.targets
    cycle : t.vs_cycle ≡ s.vs_cycle

  coil_current-Unmoved : (time : Float) (s t : Vs I) → coil_current time s ≡ ok t → Unmoved s t
  unfolding coil_current
  coil_current-Unmoved time s t e = ground arith

  stamp-Unmoved : (time : Float) (s t : Vs I) → stamp time s ≡ ok t → Unmoved s t
  unfolding stamp
  stamp-Unmoved time s t e = ground arith

  limited_test_sends :
      (s t : Vs I)
      → limited_test s ≡ ok t
      → (read t.trace.precmd s.vs_cycle ≡ read s.targets.dummy_zx1 s.vs_cycle)
        × (t.vs_cycle ≡ s.vs_cycle)
  unfolding limited_test
  limited_test_sends s t e =
      let (_, e1, f1) = >>=-eq-ok (read s.targets.dummy_ip s.vs_cycle) _ e in
      let (zx1, e2, f2) = >>=-eq-ok (read s.targets.dummy_zx1 s.vs_cycle) _ f1 in
      let (precmd, e3, f3) = >>=-eq-ok (write s.trace.precmd s.vs_cycle zx1) _ f2 in
      let written = read-write s.trace.precmd s.vs_cycle zx1 e3 in
      let stored = ap (λ (r : Vs I). r.trace.precmd) (ok-injective f3) in
      let counted = ap (λ (r : Vs I). r.vs_cycle) (ok-injective f3) in
      (ap (λ p. read p s.vs_cycle) (sym stored) ∙ written ∙ sym e2, sym counted)

  sent :
      (calc : Calc I) (istest : Bool) (xs : List Float) (time : Float) (s t : Vs I)
      → command calc istest xs time s ≡ ok t
      → read s.trace.precmd s.vs_cycle ≡ ok t.v_in.vs1_ctrl_cmd
  unfolding command
  sent calc istest xs time s t e = ground arith

  -- The limited algorithm goes last, so that in a cycle inside its window, in test mode, the command
  -- that is sent is the dummy position of that cycle, whatever the coil current algorithm commands.
  pub fastz_limited_wins :
      (calc : Calc I) (calib : List Float) (raw : List ℤ) (time : Float) (s t : Vs I)
      → (s.algmask.lm && s.algmask.ip && within time s.config.limit_st s.config.limit_et) ≡ true
      → fastz calc true calib raw time s ≡ ok t
      → read s.targets.dummy_zx1 s.vs_cycle ≡ ok t.v_in.vs1_ctrl_cmd
  unfolding fastz limited
  fastz_limited_wins calc calib raw time s t inside e =
      let xs = nominal calib raw in
      let (s1, e1, f1) = >>=-eq-ok (stamp time s) _ e in
      let (s2, e2, f2) = >>=-eq-ok (coil_current time s1) _ f1 in
      let (s3, e3, f3) = >>=-eq-ok (limited true xs time s2) _ f2 in
      let u = stamp-Unmoved time s s1 e1 in
      let v = coil_current-Unmoved time s1 s2 e2 in
      let w = limited_test_sends s2 s3 in let last = sent calc true xs time s3 t f3 in ground arith
