-- ===== src/Daux/Main/Controlled.antt =====
-- A shot of daux.c that controls, from its first cycle to its archive.
use daux4pcs2m.Base.{ℕ, ◌+◌, ◌≤◌, true, false, List, ◌≡◌, ◌≢◌, refl, arith, length, ap, sym, ◌∙◌}
use daux4pcs2m.Base.Int.{ℤ, pos}
use daux4pcs2m.Real.{Ieee, Float, Dbl}
use daux4pcs2m.Memory.Result.{Result, ok, err, out_of_bounds, ◌>>=◌, >>=-eq-ok, >>=-nested}
use daux4pcs2m.Rfm.{Rfm2g}
use daux4pcs2m.Vs.State.{Vs}
use daux4pcs2m.Vs.Init.{Env}
use daux4pcs2m.Vs.Cycle.{Calc, fastz_run}
use daux4pcs2m.Vs.Cycle.Ready.{IsReady}
use daux4pcs2m.Vs.Cycle.Plan.{fastz_run-SamePlan}
use daux4pcs2m.Vs.Archive.{save_fastz}
use daux4pcs2m.Vs.Archive.Bits.{IsRecorded, save_fastz_short, save_fastz_full}
use daux4pcs2m.Mds.{MdsLib, open_tree}
use daux4pcs2m.Daux.Options.{Options}
use daux4pcs2m.Daux.Shot.{cycles, chns}
use daux4pcs2m.Daux.Shot.Acquire.{IsOpen, HaveData}
use daux4pcs2m.Daux.Shot.Control.{cycles-IsReady, cycles_fit, timed}
use daux4pcs2m.Daux.Signals.Saved.{save_signal_within}
use daux4pcs2m.Daux.Signals.{save_signal}
use mathlib.Core.Path.{subst}
use daux4pcs2m.Daux.Main.Archived.{IsArchived, put_all-ArePut}
use daux4pcs2m.Daux.Main.{Program, archive, put_all, server, tree}

recorded :
    ⦃m : Ieee⦄ {I : Type 0} (n : ℕ) (t : Vs I) → IsReady n t → t.vs_samples ≡ pos n → IsRecorded n t
recorded n t ready samples = record {
  samples = samples;
  timebase = ready.trace.timebase;
  error = ready.trace.error;
  pvector = ready.trace.pvector;
  precmd = ready.trace.precmd;
  fincmd = ready.trace.fincmd;
  fincmd_bit = ready.trace.fincmd_bit;
}

module _ ⦃m : Ieee⦄ (lib : MdsLib) {api : Rfm2g} {I : Type 0} (calc : Calc I)
    (create destroy : I → I) (env : Env) (o : Options) (calib : List Float) (tick : Dbl)
    (shot : ℤ) where
  -- The cycles of a shot and the archive behind them.
  unfoldable pub controlled : ℕ → List (List ℤ) → Program lib api I → Result (Program lib api I)
  controlled n raws p = do
    daq ← cycles calc o calib tick n 0 raws p.daq
    archive lib calc create destroy env o shot n (record p { daq = daq })

  -- The control's part of the archive decides.
  archive-save_fastz :
      (n : ℕ) (s : Vs I) (p : Program lib api I)
      → o.acqonly ≡ false
      → o.saveall ≡ true
      → IsOpen n s p.daq
      → (saved : lib.Session) × (save_signal lib p.daq.timebase p.daq.signal_data n
            (open_tree lib server tree shot p.session).1
          ≡ ok saved)
        × (archive lib calc create destroy env o shot n p ≡ (
            save_fastz p.daq.vs >>= λ xs.
            ok (record p { session = (lib.close_shot tree shot (put_all lib xs saved)).1 })))
  unfolding archive
  archive-save_fastz n s p controls saving h =
      let opened = (open_tree lib server tree shot p.session).1 in
      let (saved, e) =
        save_signal_within lib p.daq.timebase p.daq.signal_data n opened h.timebase h.signal_data in
      (saved, e, rw saving (rw e (rw controls (>>=-nested (save_fastz p.daq.vs) _ _ _ λ xs. refl))))

  archive_right :
      (n : ℕ) (s : Vs I) (p : Program lib api I)
      → o.acqonly ≡ false
      → o.saveall ≡ true
      → IsOpen n s p.daq
      → IsReady n s
      → s.vs_cycle ≡ n
      → s.vs_samples ≡ pos n
      → (q : Program lib api I) × (archive lib calc create destroy env o shot n p ≡ ok q)
        × (q.daq ≡ p.daq)
        × IsArchived lib shot n p.daq s p.session q.session
  archive_right n s p controls saving h ready whole samples =
      let (out, eo, nodes) = save_fastz_full n s (recorded n s ready samples) whole in
      let (saved, es, ea) = archive-save_fastz n s p controls saving h in
      let kept : save_fastz p.daq.vs ≡ ok out = rw h.vs eo in
      (
        record p { session = (lib.close_shot tree shot (put_all lib out saved)).1 },
        ea
            ∙ ap
                (λ r. r >>= λ xs.
                  ok (record p { session = (lib.close_shot tree shot (put_all lib xs saved)).1 }))
                kept,
        refl,
        record {
          saved = saved;
          out = out;
          done = put_all lib out saved;
          channels = es;
          made = eo;
          put = put_all-ArePut lib out saved nodes;
          closed = refl;
        },
      )

  archive_wrong :
      (n : ℕ) (s : Vs I) (p : Program lib api I)
      → o.acqonly ≡ false
      → o.saveall ≡ true
      → IsOpen n s p.daq
      → save_fastz s ≡ err out_of_bounds
      → archive lib calc create destroy env o shot n p ≡ err out_of_bounds
  archive_wrong n s p controls saving h short =
      let (saved, _, ea) = archive-save_fastz n s p controls saving h in
      let kept : save_fastz p.daq.vs ≡ err out_of_bounds = rw h.vs short in
      ea
      ∙ ap
          (λ r. r >>= λ xs.
            ok (record p { session = (lib.close_shot tree shot (put_all lib xs saved)).1 }))
          kept

  pub controlled_right :
      (n : ℕ) (s : Vs I) (raws : List (List ℤ)) (p : Program lib api I)
      → o.acqonly ≡ false
      → o.istest ≡ false
      → o.saveall ≡ true
      → length calib ≡ chns
      → IsOpen n s p.daq
      → IsReady n s
      → s.vs_cycle ≡ 0
      → s.vs_samples ≡ pos n
      → length raws ≡ n
      → HaveData raws
      → (q : Program lib api I) × (t : Vs I) × (cycles calc o calib tick n 0 raws p.daq ≡ ok q.daq)
        × (archive lib calc create destroy env o shot n (record p { daq = q.daq }) ≡ ok q)
        × IsOpen n t q.daq
        × IsReady n t
        × (fastz_run calc false calib (timed tick 0 raws) s ≡ ok t)
        × (t.vs_cycle ≡ n)
        × IsArchived lib shot n q.daq t p.session q.session
  controlled_right n s raws p controls normal saving factors h ready begun samples count full =
      let (d, t, e, f, h', ready', counted) =
        cycles-IsReady calc o calib tick n n raws s p.daq controls normal factors h ready
          (omega arith) (omega arith) full in
      let whole : t.vs_cycle ≡ n = omega arith in
      let counts : t.vs_samples ≡ pos n =
        (fastz_run-SamePlan calc false calib (timed tick 0 raws) s t f).samples ∙ samples in
      let (q, ea, same, done) =
        archive_right n t (record p { daq = d }) controls saving h' ready' whole counts in
      (
        q,
        t,
        e ∙ ap (λ x. ok x) (sym same),
        ap (λ x. archive lib calc create destroy env o shot n (record p { daq = x })) same ∙ ea,
        subst (IsOpen n t) (sym same) h',
        ready',
        f,
        whole,
        subst (λ x. IsArchived lib shot n x t p.session q.session) (sym same) done,
      )

  -- When a shot has as many cycles as the control has room for, they all go right, and the shot is
  -- archived: the tree of the shot is opened, the channels of the acquisition are put, and then the
  -- seven signals of the control under their names, with the values and the times that `save_fastz`
  -- makes of the state that `fastz` reaches on the data and the times of the cycles, and the tree is
  -- closed. This is for a shot that controls and saves in normal mode, from the first cycle on,
  -- whatever the data, the reflective memory and the library of the control are: with the arrays of
  -- the acquisition and those of the control for `n` cycles, 96 calibration factors, and `n` cycles of
  -- 96 channels each.
  pub controlled_shot :
      (n : ℕ) (s : Vs I) (raws : List (List ℤ)) (p : Program lib api I)
      → o.acqonly ≡ false
      → o.istest ≡ false
      → o.saveall ≡ true
      → length calib ≡ chns
      → IsOpen n s p.daq
      → IsReady n s
      → s.vs_cycle ≡ 0
      → s.vs_samples ≡ pos n
      → length raws ≡ n
      → HaveData raws
      → (q : Program lib api I) × (t : Vs I) × (controlled n raws p ≡ ok q)
        × (q.daq.vs ≡ t)
        × (fastz_run calc false calib (timed tick 0 raws) s ≡ ok t)
        × (t.vs_cycle ≡ n)
        × IsArchived lib shot n q.daq t p.session q.session
  unfolding controlled
  controlled_shot n s raws p controls normal saving factors h ready begun samples count full =
      let (q, t, e, ea, still, ready', f, whole, done) =
        controlled_right n s raws p controls normal saving factors h ready begun samples count
          full in
      (q, t, rw e ea, still.vs, f, whole, done)

  -- With the arrays and the samples of the control for `l` cycles, no shot of another number of
  -- cycles comes to its end: with more cycles than `l`, an array of the control ends before them,
  -- and with fewer, the archive reads behind the signals that it makes of them. This is for a shot
  -- that controls and saves in normal mode, from the first cycle on, whatever the data, the
  -- reflective memory and the library of the control are: with the arrays of the acquisition for
  -- `n` cycles, 96 calibration factors, and `n` cycles of 96 channels each.
  pub controlled_uneven :
      (n l : ℕ) (s : Vs I) (raws : List (List ℤ)) (p q : Program lib api I)
      → o.acqonly ≡ false
      → o.istest ≡ false
      → o.saveall ≡ true
      → length calib ≡ chns
      → IsOpen n s p.daq
      → IsReady l s
      → s.vs_cycle ≡ 0
      → s.vs_samples ≡ pos l
      → length raws ≡ n
      → HaveData raws
      → n ≢ l
      → controlled n raws p ≢ ok q
  unfolding controlled
  controlled_uneven n l s raws p q controls normal saving factors h ready begun samples count full
        uneven right =
      let (d1, e1, a1) = >>=-eq-ok (cycles calc o calib tick n 0 raws p.daq) _ right in
      let fits : p.daq.vs.vs_cycle + length raws ≤ l =
        cycles_fit calc o calib tick n l raws p.daq d1 controls (rw h.vs ready.trace.timebase)
          (rw h.vs (omega arith)) e1 in
      let same : p.daq.vs.vs_cycle ≡ s.vs_cycle = ap (λ x. x.vs_cycle) h.vs in
      let (d, t, e, f, h', ready', counted) =
        cycles-IsReady calc o calib tick n l raws s p.daq controls normal factors h ready
          (omega arith) (omega arith) full in
      let counts : t.vs_samples ≡ pos l =
        (fastz_run-SamePlan calc false calib (timed tick 0 raws) s t f).samples ∙ samples in
      let short : save_fastz t ≡ err out_of_bounds =
        save_fastz_short l t (recorded l t ready' counts) (omega arith) in
      let fails : controlled n raws p ≡ err out_of_bounds =
        rw e (archive_wrong n t (record p { daq = d }) controls saving h' short) in
      grind arith
