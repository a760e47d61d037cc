-- ===== src/Daux/Main/Served.antt =====
-- A round of the loop over the shots of daux.c that controls.
use daux4pcs2m.Base.{List, sym, ℕ, ◌*◌, ◌≤◌, true, false, ◌∷◌, ◌≡◌, refl, length, ap, ◌∙◌}
use daux4pcs2m.Base.Int.{pos, ◌*ℤ◌}
use daux4pcs2m.Real.{Ieee, Float, Dbl, nought, double_of, ◌⧄◌}
use daux4pcs2m.Memory.Result.{ok, Always, Always-ok, Always->>=, Ends}
use daux4pcs2m.Memory.Buffer.{
  HasSize, HasSize-allocate, allocate, freed, live, contents, free_live, read,
}
use daux4pcs2m.Rfm.{Rfm2g}
use daux4pcs2m.Vs.State.{Vs}
use daux4pcs2m.Vs.Init.{Env, total, fastz_init}
use daux4pcs2m.Vs.Cycle.{Calc}
use daux4pcs2m.Mds.{MdsLib, create_tree}
use daux4pcs2m.Daq.Scripts.{acq2106_start}
use daux4pcs2m.Daux.Options.{Options}
use daux4pcs2m.Daux.Calib.{readcalib}
use daux4pcs2m.Daux.Calib.Sizes.{readcalib-HasSize}
use daux4pcs2m.Daux.Count.{mul_pos, rate, sample_count}
use daux4pcs2m.Daux.Shot.{Daq, chns, cycles}
use daux4pcs2m.Daux.Shot.Acquire.{IsOpen}
use daux4pcs2m.Daux.Main.{arm, answer, data_of, server, tree, Input, Program, prepare, clean, serve}
use daux4pcs2m.Vs.Init.Ready.{fastz_init-IsReady}
use daux4pcs2m.Vs.Cycle.Arrays.{HasRows}
use daux4pcs2m.Vs.Cycle.Plan.{fastz_run-SamePlan}
use daux4pcs2m.Vs.Clean.{fastz_clean, lpf_reset, scratch_reset}
use daux4pcs2m.Vs.Clean.DoubleFree.{fastz_clean_resets}
use daux4pcs2m.Vs.Clean.Right.{HeldWaves, after_waves, no_trace, fastz_clean_right}
use daux4pcs2m.Daux.Shot.Control.{timed}
use daux4pcs2m.Daux.Main.Waiting.{contents_within, length-data_of, HaveData-data_of}
use daux4pcs2m.Daux.Main.Controlled.{controlled, controlled_right}
use mathlib.Core.Path.{subst}
use daux4pcs2m.Daux.Main.Archived.{IsArchived}
use daux4pcs2m.Daux.Main.Answers.{serve_answers}

module _ ⦃m : Ieee⦄ (lib : MdsLib) {api : Rfm2g} {I : Type 0} (calc : Calc I) (o : Options)
    (tick : Dbl) (i : Input) (n : ℕ) where
  -- After a shot that controlled: `p` is the program before its message, `b` the one that waits for
  -- the trigger, and `q` the one that waits for the next message.
  pub record IsTidy (p b q : Program lib api I) : Type 0 where
    -- the factors, and what the cycles leave
    pub factors : List Float
    pub measured : Daq api I
    pub calibrated : b.calib ≡ live factors
    pub ran : cycles calc o factors tick n 0 (data_of i.device 0 n) b.daq ≡ ok measured
    pub complete : measured.vs.vs_cycle ≡ n
    pub archived : IsArchived lib i.shot n measured measured.vs b.session q.session
    -- what was allocated is freed
    pub timebase : q.daq.timebase ≡ freed
    pub signal_data : q.daq.signal_data ≡ freed
    pub trace : q.daq.vs.trace ≡ no_trace
    pub config :
        q.daq.vs.config ≡ (after_waves b.daq.vs.algmask (b.daq.vs.config, b.daq.vs.targets)).0
    pub targets :
        q.daq.vs.targets ≡ (after_waves b.daq.vs.algmask (b.daq.vs.config, b.daq.vs.targets)).1
    -- what is reset
    pub filter : q.daq.vs.lpf ≡ lpf_reset
    pub scratch : read q.daq.vs.scratch 0 ≡ ok scratch_reset
    pub sent : q.sent ≡ answer ∷ p.sent

module _ ⦃m : Ieee⦄ (lib : MdsLib) {api : Rfm2g} {I : Type 0} (calc : Calc I)
    (create destroy : I → I) (env : Env) (o : Options) where
  open m use {lit}

  -- What a preparation without an error leaves for a shot that controls.
  record IsBegun (i : Input) (n : ℕ) (tick : Dbl) (p q : Program lib api I) : Type 0 where
    prepared : fastz_init create env tick i.zfile p.zfbuf p.daq.vs ≡ ok (q.daq.vs, q.zfbuf)
    arrays : IsOpen n q.daq.vs q.daq
    calib : HasSize chns q.calib

  abbrev Begins : Input → ℕ → Program lib api I → ℕ × Dbl × Program lib api I → Type 0
  Begins i n p (k, tick, q) = IsBegun i n tick p q × (k ≡ n)

  prepare_right :
      (i : Input) (p : Program lib api I) (n : ℕ)
      → o.acqonly ≡ false
      → o.saveall ≡ true
      → length p.daq.baseline ≡ chns
      → HasSize chns p.calib
      → sample_count i.total_time p.acq.clk_div ≡ ok (pos n)
      → Always (Begins i n p) (prepare lib calc create destroy env o i p)
  unfolding prepare
  prepare_right i p n controls saving base size count =
      let values : HasSize (chns * n) (allocate (pos chns *ℤ pos n) env.garbage.x) =
        rw (mul_pos chns n) (HasSize-allocate (chns * n) env.garbage.x) in
      rw count (
        rw controls (
          rw saving (
            Always->>= (rate p.acq.clk_div) _ λ r _.
              let tick = lit 1 0 ⧄ double_of r in
              Always->>= (create_tree lib server tree i.shot p.session) _ λ session _.
                Always->>= (fastz_init create env tick i.zfile p.zfbuf p.daq.vs) _ λ x prepared.
                  Always->>= (readcalib env.scan i.calib_file p.calib) _ λ y factors.
                    Always->>= (arm p.acq) _ λ a _.
                      Always->>= (acq2106_start lib.decimal o.cycle a) _ λ b _. Always-ok _ (
                        record {
                          prepared = prepared;
                          arrays = record {
                            timebase = HasSize-allocate n nought;
                            signal_data = values;
                            baseline = base;
                            vs = refl;
                          };
                          calib =
                              readcalib-HasSize env.scan chns i.calib_file p.calib y.0 y.1 factors
                                size;
                        },
                        refl,
                      ))))

  clean_right :
      (n : ℕ) (t v : Vs I) (p : Program lib api I)
      → o.acqonly ≡ false
      → o.saveall ≡ true
      → IsOpen n t p.daq
      → fastz_clean destroy t ≡ ok v
      → clean lib calc create destroy env o p
        ≡ ok (record p { daq = record p.daq { timebase = freed; signal_data = freed; vs = v } })
  unfolding clean
  clean_right n t v p controls saving h e =
      let ft = free_live p.daq.timebase n h.timebase in
      let fs = free_live p.daq.signal_data (chns * n) h.signal_data in
      let fv : fastz_clean destroy p.daq.vs ≡ ok v = ap (fastz_clean destroy) h.vs ∙ e in
      rw saving (rw controls (rw ft (rw fs (rw fv refl))))

  -- A round of the main loop that controls comes to its end, from its message to the clean-up: once
  -- it is prepared without an error, all its cycles go right, and it is archived: the tree of the shot
  -- is opened, the channels of the acquisition are put, and then the seven signals of the control
  -- under their names, with the values and the times that `save_fastz` makes of the state after the
  -- cycles, and the tree is closed. The arrays of the acquisition, those that the control records and
  -- those of the waveforms of each algorithm of the shot are freed without a fault; behind it the
  -- filter is as at the start of the program and the PID memory is zero; one answer was sent. This is
  -- for a round that controls with both algorithms, and saves, in normal mode, whatever the data, the
  -- reflective memory and the library of the control are: with as many samples of the control as
  -- cycles, both as an int and for the waveforms, with step waves that name rows of the matrices, with
  -- 96 values of the base line and 96 calibration factors, 96 channels in each cycle, and for
  -- waveforms whose vertices and samples are there after the preparation, since `fastz_clean` frees
  -- vertices a second time that `linear` has cut or extended, with at least one row of EMatrix for each
  -- vertex of its step wave.
  pub serve_controls :
      (n : ℕ) (tick : Dbl) (i : Input) (p p' : Program lib api I)
      → o.acqonly ≡ false
      → o.istest ≡ false
      → o.saveall ≡ true
      → length p.daq.baseline ≡ chns
      → HasSize chns p.calib
      → sample_count i.total_time p.acq.clk_div ≡ ok (pos n)
      → prepare lib calc create destroy env o i p ≡ ok (n, tick, p')
      → p'.daq.vs.algmask.cc ≡ true
      → p'.daq.vs.algmask.lm ≡ true
      → p'.daq.vs.vs_samples ≡ pos n
      → total p'.daq.vs.config.vs1_st p'.daq.vs.config.vs1_et p'.daq.vs.vs_interval ≡ pos n
      → HasRows p'.daq.vs.config p'.daq.vs.targets
      → HeldWaves p'.daq.vs.algmask (p'.daq.vs.config, p'.daq.vs.targets)
      → ((k : ℕ) → chns ≤ length (i.device k))
      → Ends (IsTidy lib calc o tick i n p p') (serve lib calc create destroy env o i p)
  unfolding serve controlled
  serve_controls n tick i p p' controls normal saving base size count e cc_on lm_on samples counted
        rows held full =
      let s = p'.daq.vs in
      let (begun, _) =
        (prepare_right i p n controls saving base size count).always (n, tick, p') e in
      let (ready, zero) =
        fastz_init-IsReady create env n tick i.zfile p.zfbuf p'.zfbuf p.daq.vs s begun.prepared
          cc_on lm_on samples counted rows in
      let (xs, ex, size_xs) = contents_within p'.calib chns begun.calib in
      let raws = data_of i.device 0 n in
      let (q, t, e2, e3, still, ready', f, whole, done) =
        controlled_right lib calc create destroy env o xs tick i.shot n s raws p' controls normal
          saving size_xs begun.arrays ready zero samples (length-data_of i.device 0 n)
          (HaveData-data_of i.device 0 n full) in
      let plan = fastz_run-SamePlan calc false xs (timed tick 0 raws) s t f in
      let held' : HeldWaves t.algmask (t.config, t.targets) =
        rw plan.algmask (rw plan.config (rw plan.targets held)) in
      let on : t.algmask.cc ≡ true = ap (λ x. x.cc) plan.algmask ∙ cc_on in
      let (v, ev, traces, config, targets) =
        fastz_clean_right destroy n t held' on ready'.trace ready'.scratch in
      let (lpf, scratch, mask) = fastz_clean_resets destroy t v ev in
      let same : after_waves t.algmask (t.config, t.targets)
          ≡ after_waves s.algmask (s.config, s.targets) =
        rw plan.algmask (rw plan.config (rw plan.targets refl)) in
      let last : Program lib api I = record q {
        daq = record q.daq { timebase = freed; signal_data = freed; vs = v };
      } in
      let read_calib : contents p'.calib ≡ ok xs = ap contents ex in
      let returns : serve lib calc create destroy env o i p ≡ ok last =
        rw e (rw read_calib (rw e2 (rw e3 (clean_right n t v q controls saving still ev)))) in
      record {
        value = last;
        returns = returns;
        holds = record {
          factors = xs;
          measured = q.daq;
          calibrated = ex;
          ran = e2;
          complete = ap (λ x. x.vs_cycle) still.vs ∙ whole;
          archived =
              subst (λ x. IsArchived lib i.shot n q.daq x p'.session q.session) (sym still.vs) done;
          timebase = refl;
          signal_data = refl;
          trace = traces;
          config = config ∙ ap (λ x. x.0) same;
          targets = targets ∙ ap (λ x. x.1) same;
          filter = lpf;
          scratch = scratch;
          sent = serve_answers lib calc create destroy env o i p last returns;
        };
      }
