-- ===== src/Vs/Cycle/Record.antt =====
-- What a cycle of vscontrol.h's `fastz` records, and how many cycles there is room for.
use daux4pcs2m.Base.{
  ℕ, zero, suc, ◌+◌, ◌≤◌, ◌<◌, Bool, List, [], ◌∷◌, some, ◌≡◌, ◌≢◌, refl, ap, sym, ◌∙◌, arith,
  length, get_elem?,
}
use mathlib.Core.Option.{some-injective}
use daux4pcs2m.Base.Int.{ℤ}
use daux4pcs2m.Real.{Ieee, Float}
use daux4pcs2m.Memory.Result.{Result, ok, >>=-eq-ok, ok-injective}
use daux4pcs2m.Memory.Buffer.{
  HasSize, read, write, read-write, read-write_ne, HasSize-write, write_bound,
}
use daux4pcs2m.Vs.State.{Vs}
use daux4pcs2m.Vs.Cycle.Kept.{KeepsOthers, coil_current-Always, limited-Always}
use daux4pcs2m.Vs.Cycle.{Calc, fastz, fastz_run, stamp, coil_current, limited, command, nominal}

module _ ⦃m : Ieee⦄ {I : Type 0} where
  stamp-records :
      (time : Float) (s t : Vs I)
      → stamp time s ≡ ok t
      → (write s.trace.timebase s.vs_cycle time ≡ ok t.trace.timebase)
        × (t.vs_cycle ≡ s.vs_cycle)
        × (t.trace.fincmd ≡ s.trace.fincmd)
        × (t.trace.fincmd_bit ≡ s.trace.fincmd_bit)
        × (t.trace.precmd ≡ s.trace.precmd)
        × (t.s_in ≡ s.s_in)
        × (t.out ≡ s.out)
        × (t.inst ≡ s.inst)
  unfolding stamp
  stamp-records time s t e = ground arith

  command-records :
      (calc : Calc I) (istest : Bool) (xs : List Float) (time : Float) (s t : Vs I)
      → command calc istest xs time s ≡ ok t
      → (t.trace.timebase ≡ s.trace.timebase)
        × (t.vs_cycle ≡ s.vs_cycle + 1)
        × (read s.trace.precmd s.vs_cycle ≡ ok t.v_in.vs1_ctrl_cmd)
        × (t.trace.precmd ≡ s.trace.precmd)
        × (t.out ≡ (calc s.s_in t.v_in s.out s.inst).0)
        × (t.inst ≡ (calc s.s_in t.v_in s.out s.inst).1)
        × (write s.trace.fincmd s.vs_cycle t.out.cmd_val ≡ ok t.trace.fincmd)
        × (write s.trace.fincmd_bit s.vs_cycle t.out.status ≡ ok t.trace.fincmd_bit)
  unfolding command
  command-records calc istest xs time s t e = ground arith

  -- What one cycle adds to the record: at the index of the cycle the time, the command that went to
  -- the library and both parts of its answer; the times, commands and answers at other indices are
  -- kept. The library is called once, in the state that it was in before.
  pub record IsRecorded (calc : Calc I) (time : Float) (s t : Vs I) : Type 0 where
    pub cycle : t.vs_cycle ≡ s.vs_cycle + 1
    pub stamped : read t.trace.timebase s.vs_cycle ≡ ok time
    pub sent : read t.trace.precmd s.vs_cycle ≡ ok t.v_in.vs1_ctrl_cmd
    pub called_out : t.out ≡ (calc s.s_in t.v_in s.out s.inst).0
    pub called_inst : t.inst ≡ (calc s.s_in t.v_in s.out s.inst).1
    pub commanded : read t.trace.fincmd s.vs_cycle ≡ ok (calc s.s_in t.v_in s.out s.inst).0.cmd_val
    pub answered :
        read t.trace.fincmd_bit s.vs_cycle ≡ ok (calc s.s_in t.v_in s.out s.inst).0.status
    pub sent_kept : (j : ℕ) → s.vs_cycle ≢ j → read t.trace.precmd j ≡ read s.trace.precmd j
    pub times_kept : (j : ℕ) → s.vs_cycle ≢ j → read t.trace.timebase j ≡ read s.trace.timebase j
    pub commands_kept : (j : ℕ) → s.vs_cycle ≢ j → read t.trace.fincmd j ≡ read s.trace.fincmd j
    pub answers_kept :
        (j : ℕ) → s.vs_cycle ≢ j → read t.trace.fincmd_bit j ≡ read s.trace.fincmd_bit j

  -- The parts of a successful cycle, in one place.
  record Parts (calc : Calc I) (time : Float) (s t : Vs I) : Type 0 where
    timed : write s.trace.timebase s.vs_cycle time ≡ ok t.trace.timebase
    counted : t.vs_cycle ≡ s.vs_cycle + 1
    command_sent : read t.trace.precmd s.vs_cycle ≡ ok t.v_in.vs1_ctrl_cmd
    out_called : t.out ≡ (calc s.s_in t.v_in s.out s.inst).0
    inst_called : t.inst ≡ (calc s.s_in t.v_in s.out s.inst).1
    fincmd_written : write s.trace.fincmd s.vs_cycle t.out.cmd_val ≡ ok t.trace.fincmd
    status_written : write s.trace.fincmd_bit s.vs_cycle t.out.status ≡ ok t.trace.fincmd_bit
    others : KeepsOthers s.vs_cycle s.trace.precmd t.trace.precmd

  fastz-Parts :
      (calc : Calc I) (istest : Bool) (calib : List Float) (raw : List ℤ) (time : Float)
      (s t : Vs I)
      → fastz calc istest calib raw time s ≡ ok t
      → Parts calc time s t
  unfolding fastz
  fastz-Parts calc istest calib raw time s t e =
      let xs = nominal calib raw in
      let (s1, e1, f1) = >>=-eq-ok (stamp time s) _ e in
      let (s2, e2, f2) = >>=-eq-ok (coil_current time s1) _ f1 in
      let (s3, e3, f3) = >>=-eq-ok (limited istest xs time s2) _ f2 in
      let (timed, cycle, fincmd, bits, precmd, s_in, out, inst) = stamp-records time s s1 e1 in
      let cc = (coil_current-Always time s1).always s2 e2 in
      let lm = (limited-Always istest xs time s2).always s3 e3 in
      let (base, next, sent, same, called, left, commanded', status) =
        command-records calc istest xs time s3 t f3 in
      let at : s3.vs_cycle ≡ s.vs_cycle = lm.cycle ∙ cc.cycle ∙ cycle in
      let ins : s3.s_in ≡ s.s_in = lm.s_in ∙ cc.s_in ∙ s_in in
      let outs : s3.out ≡ s.out = lm.out ∙ cc.out ∙ out in
      let insts : s3.inst ≡ s.inst = lm.inst ∙ cc.inst ∙ inst in
      let call : calc s3.s_in t.v_in s3.out s3.inst ≡ calc s.s_in t.v_in s.out s.inst =
        rw ins (rw outs (rw insts refl)) in
      record {
        timed = timed ∙ ap (λ b. ok b) (sym (base ∙ lm.timebase ∙ cc.timebase));
        counted = next ∙ ap (λ i. i + 1) at;
        command_sent = ap (λ b. read b s.vs_cycle) same ∙ ap (read s3.trace.precmd) (sym at) ∙ sent;
        out_called = called ∙ ap (λ r. r.0) call;
        inst_called = left ∙ ap (λ r. r.1) call;
        fincmd_written =
            ap (λ b. write b s.vs_cycle t.out.cmd_val) (sym (lm.fincmd ∙ cc.fincmd ∙ fincmd))
            ∙ ap (λ i. write s3.trace.fincmd i t.out.cmd_val) (sym at)
            ∙ commanded';
        status_written =
            ap (λ b. write b s.vs_cycle t.out.status) (sym (lm.fincmd_bit ∙ cc.fincmd_bit ∙ bits))
            ∙ ap (λ i. write s3.trace.fincmd_bit i t.out.status) (sym at)
            ∙ status;
        others = λ j other.
            ap (λ b. read b j) same
            ∙ lm.commands j (λ e. other (sym (cc.cycle ∙ cycle) ∙ e))
            ∙ cc.commands j (λ e. other (sym cycle ∙ e))
            ∙ ap (λ b. read b j) precmd;
      }

  -- A cycle that succeeds calls the library once, in the state that it was in before, and records its
  -- time, the command that the library was called with and both parts of its answer at the index of
  -- the cycle; it goes on to the next index, and leaves the times, the commands and the answers that
  -- were recorded at the others.
  pub fastz_records :
      (calc : Calc I) (istest : Bool) (calib : List Float) (raw : List ℤ) (time : Float)
      (s t : Vs I)
      → fastz calc istest calib raw time s ≡ ok t
      → IsRecorded calc time s t
  fastz_records calc istest calib raw time s t e =
      let p = fastz-Parts calc istest calib raw time s t e in
      record {
        cycle = p.counted;
        stamped = read-write _ _ _ p.timed;
        sent = p.command_sent;
        called_out = p.out_called;
        called_inst = p.inst_called;
        commanded = read-write _ _ _ p.fincmd_written ∙ ap (λ o. ok o.cmd_val) p.out_called;
        answered = read-write _ _ _ p.status_written ∙ ap (λ o. ok o.status) p.out_called;
        sent_kept = p.others;
        times_kept = λ j. read-write_ne _ _ j _ p.timed;
        commands_kept = λ j. read-write_ne _ _ j _ p.fincmd_written;
        answers_kept = λ j. read-write_ne _ _ j _ p.status_written;
      }

  -- A shot that succeeds has no more cycles than the array of its times has elements left, so that a
  -- shot of more than `vs_samples` cycles goes wrong.
  pub fastz_run_fits :
      (calc : Calc I) (istest : Bool) (calib : List Float) (cycles : List (List ℤ × Float)) (n : ℕ)
      (s t : Vs I)
      → HasSize n s.trace.timebase
      → s.vs_cycle ≤ n
      → fastz_run calc istest calib cycles s ≡ ok t
      → (s.vs_cycle + length cycles ≤ n) × (t.vs_cycle ≡ s.vs_cycle + length cycles)
  unfolding fastz_run
  fastz_run_fits calc istest calib [] n s t size room e =
      let done = ap (λ (r : Vs I). r.vs_cycle) (ok-injective e) in omega arith
  fastz_run_fits calc istest calib ((raw, time) ∷ rest) n s t size room e =
      let (s1, e1, f1) = >>=-eq-ok (fastz calc istest calib raw time s) _ e in
      let p = fastz-Parts calc istest calib raw time s s1 e1 in
      let below = write_bound _ n _ _ p.timed size in
      let counted = p.counted in
      let ih =
        fastz_run_fits calc istest calib rest n s1 t (HasSize-write _ n _ _ p.timed size)
          (omega arith) f1 in
      omega arith

  -- Later cycles leave the times of earlier ones.
  run_keeps :
      (calc : Calc I) (istest : Bool) (calib : List Float) (cycles : List (List ℤ × Float)) (j : ℕ)
      (s t : Vs I)
      → j < s.vs_cycle
      → fastz_run calc istest calib cycles s ≡ ok t
      → read t.trace.timebase j ≡ read s.trace.timebase j
  unfolding fastz_run
  run_keeps calc istest calib [] j s t below e =
      ap (λ (r : Vs I). read r.trace.timebase j) (sym (ok-injective e))
  run_keeps calc istest calib ((raw, time) ∷ rest) j s t below e =
      let (s1, e1, f1) = >>=-eq-ok (fastz calc istest calib raw time s) _ e in
      let r = fastz_records calc istest calib raw time s s1 e1 in
      let counted = r.cycle in
      let later : j < s1.vs_cycle = omega arith in
      let other : s.vs_cycle ≢ j = omega arith in
      run_keeps calc istest calib rest j s1 t later f1 ∙ r.times_kept j other

  -- After a shot that succeeds the array of times is the log of the cycles in order: the time of the
  -- cycle number `k` of the shot stands `k` elements after the place where the shot began.
  pub fastz_run_logs :
      (calc : Calc I) (istest : Bool) (calib : List Float) (cycles : List (List ℤ × Float)) (k : ℕ)
      (raw : List ℤ) (time : Float) (s t : Vs I)
      → fastz_run calc istest calib cycles s ≡ ok t
      → get_elem? cycles k ≡ some (raw, time)
      → read t.trace.timebase (s.vs_cycle + k) ≡ ok time
  unfolding fastz_run
  fastz_run_logs calc istest calib [] k raw time s t e g = cc
  fastz_run_logs calc istest calib ((raw', time') ∷ rest) zero raw time s t e g =
      let (s1, e1, f1) = >>=-eq-ok (fastz calc istest calib raw' time' s) _ e in
      let r = fastz_records calc istest calib raw' time' s s1 e1 in
      let counted = r.cycle in
      let here : s.vs_cycle + 0 ≡ s.vs_cycle = omega arith in
      let below : s.vs_cycle < s1.vs_cycle = omega arith in
      let same_time : time' ≡ time = ap (λ p. p.1) (some-injective _ _ g) in
      rw here (
        run_keeps calc istest calib rest s.vs_cycle s1 t below f1
        ∙ r.stamped
        ∙ ap {B = Result Float} ok same_time)
  fastz_run_logs calc istest calib ((raw', time') ∷ rest) (suc k) raw time s t e g =
      let (s1, e1, f1) = >>=-eq-ok (fastz calc istest calib raw' time' s) _ e in
      let r = fastz_records calc istest calib raw' time' s s1 e1 in
      let counted = r.cycle in
      let there : s.vs_cycle + suc k ≡ s1.vs_cycle + k = omega arith in
      rw there (fastz_run_logs calc istest calib rest k raw time s1 t f1 g)
