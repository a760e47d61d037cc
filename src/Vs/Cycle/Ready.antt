-- ===== src/Vs/Cycle/Ready.antt =====
-- When the cycles of vscontrol.h's `fastz` go right.
use daux4pcs2m.Base.{
  ℕ, ◌+◌, ◌≤◌, ◌<◌, false, List, [], ◌∷◌, ◌≡◌, refl, ◌∙◌, arith, length, Bool-cases, inl, inr, ◌&&◌,
}
use daux4pcs2m.Base.Int.{ℤ, pos}
use daux4pcs2m.Real.{Ieee, Float, ◌⊖◌, ◌⊗◌}
use daux4pcs2m.Memory.Result.{ok, Ends, Ends-ok}
use daux4pcs2m.Memory.Buffer.{HasSize, read_within, write_within, read_list_within}
use daux4pcs2m.Filter.{low_pass_filter}
use daux4pcs2m.Pid.{pid_element}
use daux4pcs2m.Vs.State.{Vs, VarIn}
use daux4pcs2m.Vs.Cycle.{
  Calc, fastz, fastz_run, stamp, coil_current, limited, limited_normal, slow_z, command, nominal,
  within, daq_rl01, daq_ivs1,
}
use daux4pcs2m.Vs.Cycle.Arrays.{
  HasRows, LmReady, TraceReady, length-nominal, position_ok, gains_ok, cc_command_ready,
  HaveChannels,
}

module _ ⦃m : Ieee⦄ {I : Type 0} where
  open m use {to_int, of_int}

  -- Both algorithms have what they read in a shot of `n` cycles.
  pub record IsReady (n : ℕ) (s : Vs I) : Type 0 where
    pub trace : TraceReady n s.trace
    pub voltage : HasSize n s.targets.ccvvs1
    pub current : HasSize n s.targets.ccivs1
    pub lm : LmReady n s.targets
    pub rows : HasRows s.config s.targets
    pub scratch : HasSize 1 s.scratch

  -- Ready, at the same cycle as before.
  abbrev StaysReady : ℕ → ℕ → Vs I → Type 0
  StaysReady n i t = IsReady n t × (t.vs_cycle ≡ i)

  stamp_ready :
      (n : ℕ) (time : Float) (s : Vs I)
      → IsReady n s
      → s.vs_cycle < n
      → Ends (StaysReady n s.vs_cycle) (stamp time s)
  unfolding stamp
  stamp_ready n time s h below =
      let (b, e, size, _) =
        write_within s.trace.timebase n s.vs_cycle time h.trace.timebase below in
      rw e (Ends-ok _ (assumption, refl))

  coil_current_ready :
      (n : ℕ) (time : Float) (s : Vs I)
      → IsReady n s
      → s.vs_cycle < n
      → Ends (StaysReady n s.vs_cycle) (coil_current time s)
  unfolding coil_current
  coil_current_ready n time s h below =
      let c =
        cc_command_ready n s.vs_cycle s.config s.targets s.trace.precmd h.voltage h.current
          h.trace.precmd below in
      let size = c.holds in
      elim (Bool-cases (s.algmask.cc && within time s.config.cc_st s.config.cc_et)) [
        | inl inside ↦ rw inside (rw c.returns (Ends-ok _ (assumption, refl)))
        | inr outside ↦ rw outside (Ends-ok s (h, refl))
      ]

  limited_normal_ready :
      (n : ℕ) (xs : List Float) (time : Float) (s : Vs I)
      → IsReady n s
      → s.vs_cycle < n
      → length xs ≡ 96
      → Ends (StaysReady n s.vs_cycle) (limited_normal xs time s)
  unfolding limited_normal
  limited_normal_ready n xs time s h below channels =
      let i = s.vs_cycle in
      let t = s.targets in
      let (which_e, ee) = read_within t.which_e n i h.lm.which_e below in
      let (which_m, em) = read_within t.which_m n i h.lm.which_m below in
      let (ip, eip) = read_list_within xs daq_rl01 (omega arith) in
      let (k, ek, row, er, rows) = h.rows.e_row i which_e ee in
      let (l, el, a, ea) = h.rows.m_row i which_m em in
      let (z, ez) =
        position_ok n i (to_int which_e) k ip xs s.config s.trace.zpos row h.trace.zpos below ek er
          rows channels in
      let (zpos, wz, sz, _) = write_within s.trace.zpos n i z h.trace.zpos below in
      let (ref, eref) = read_within t.zx1ref n i h.lm.zx1ref below in
      let (sztc, etc) = read_within t.sztc n i h.lm.sztc below in
      let (szdt, edt) = read_within t.szdt n i h.lm.szdt below in
      let filtered = low_pass_filter (ref ⊖ z) sztc time s.lpf in
      let (derror, wd, sd, _) = write_within s.trace.derror n i filtered.0 h.trace.derror below in
      let slowed = slow_z time sztc szdt (ref ⊖ z) filtered.0 filtered.1 in
      let (error, we, se, _) = write_within s.trace.error n i slowed.0 h.trace.error below in
      let (g, eg) = gains_ok n i t h.lm below in
      let (old, eo) = read_within s.scratch 1 0 h.scratch (omega arith) in
      let p = pid_element time g 1 1 slowed.0 old in
      let (pvector, wp, sp, _) = write_within s.trace.pvector n i p.0 h.trace.pvector below in
      let (scratch, ws, ss, _) = write_within s.scratch 1 0 p.2 h.scratch (omega arith) in
      let (precmd, wc, sc, _) = write_within s.trace.precmd n i (a ⊗ p.0) h.trace.precmd below in
      simp (ee, em, eip, ez, wz, eref, etc, edt, wd, we, eg, eo, wp, ws, el, ea, wc)
        (Ends-ok _ (assumption, refl))

  limited_ready :
      (n : ℕ) (xs : List Float) (time : Float) (s : Vs I)
      → IsReady n s
      → s.vs_cycle < n
      → length xs ≡ 96
      → Ends (StaysReady n s.vs_cycle) (limited false xs time s)
  unfolding limited
  limited_ready n xs time s h below channels =
      let inside = within time s.config.limit_st s.config.limit_et in
      elim (Bool-cases (s.algmask.lm && s.algmask.ip && inside)) [
        | inl active ↦ rw active (limited_normal_ready n xs time s h below channels)
        | inr idle ↦ rw idle (Ends-ok s (h, refl))
      ]

  command_ready :
      (n : ℕ) (calc : Calc I) (xs : List Float) (time : Float) (s : Vs I)
      → IsReady n s
      → s.vs_cycle < n
      → length xs ≡ 96
      → Ends (StaysReady n (s.vs_cycle + 1)) (command calc false xs time s)
  unfolding command
  command_ready n calc xs time s h below channels =
      let i = s.vs_cycle in
      let (ivs1, ei) = read_list_within xs daq_ivs1 (omega arith) in
      let (cmd, ec) = read_within s.trace.precmd n i h.trace.precmd below in
      let v_in : VarIn = record {
        ivs1 = ivs1;
        time = time ⊗ of_int (pos 1000);
        vs1_ctrl_cmd = cmd;
        error = 0;
      } in
      let out = calc s.s_in v_in s.out s.inst in
      let (fincmd, wf, sf, _) =
        write_within s.trace.fincmd n i out.0.cmd_val h.trace.fincmd below in
      let (bits, wb, sb, _) =
        write_within s.trace.fincmd_bit n i out.0.status h.trace.fincmd_bit below in
      simp (ei, ec, wf, wb) (Ends-ok _ (assumption, refl))

  fastz_ready :
      (n : ℕ) (calc : Calc I) (calib : List Float) (raw : List ℤ) (time : Float) (s : Vs I)
      → IsReady n s
      → s.vs_cycle < n
      → length calib ≡ 96
      → 96 ≤ length raw
      → Ends (StaysReady n (s.vs_cycle + 1)) (fastz calc false calib raw time s)
  unfolding fastz
  fastz_ready n calc calib raw time s h below factors channels =
      let xs = nominal calib raw in
      let size : length xs ≡ 96 = length-nominal calib raw (omega arith) ∙ factors in
      let r1 = stamp_ready n time s h below in
      let at1 = r1.holds.1 in
      let r2 = coil_current_ready n time r1.value r1.holds.0 (omega arith) in
      let at2 = r2.holds.1 in
      let r3 = limited_ready n xs time r2.value r2.holds.0 (omega arith) size in
      let at3 = r3.holds.1 in
      let r4 = command_ready n calc xs time r3.value r3.holds.0 (omega arith) size in
      let at4 = r4.holds.1 in
      rw r1.returns
        (rw r2.returns (rw r3.returns (rw r4.returns (Ends-ok r4.value (r4.holds.0, omega arith)))))

  -- A shot in normal mode goes right, from the first to the last cycle, whatever the two algorithms
  -- do in it, the measurements and the library are, if there is room for all its cycles: no access is
  -- out of bounds, the arrays are still in order afterwards, and each cycle was counted. It wants the
  -- arrays of a shot of `n` cycles and the matrix rows that its step waves select, 96 calibration
  -- factors and 96 channels in each cycle.
  pub fastz_run-IsReady :
      (n : ℕ) (calc : Calc I) (calib : List Float) (cycles : List (List ℤ × Float)) (s : Vs I)
      → IsReady n s
      → s.vs_cycle + length cycles ≤ n
      → length calib ≡ 96
      → HaveChannels cycles
      → (t : Vs I) × (fastz_run calc false calib cycles s ≡ ok t)
        × IsReady n t
        × (t.vs_cycle ≡ s.vs_cycle + length cycles)
  unfolding fastz_run
  fastz_run-IsReady n calc calib [] s h room factors channels = (s, refl, h, omega arith)
  fastz_run-IsReady n calc calib ((raw, time) ∷ rest) s h room factors (now, later) =
      let r = fastz_ready n calc calib raw time s h (omega arith) factors now in
      let next = r.holds.1 in
      let (t, e, ready, count) =
        fastz_run-IsReady n calc calib rest r.value r.holds.0 (omega arith) factors later in
      (t, rw r.returns e, ready, omega arith)
