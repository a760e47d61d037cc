-- ===== src/Daux/Main/Prepared.antt =====
-- The preparation of a shot in `main` of daux.c goes right, for a program that only acquires.
use daux4pcs2m.Base.{
  ◌≤◌, length, ℕ, ◌*◌, true, List, ◌∷◌, ◌≡◌, refl, arith, ◌∙◌, ap, overwrite, length-overwrite,
}
use daux4pcs2m.Base.Int.{ℤ, pos, ◌*ℤ◌}
use daux4pcs2m.Real.{Ieee, Float, double_of, nought, ◌⧄◌}
use daux4pcs2m.Memory.Result.{ok}
use daux4pcs2m.Memory.Buffer.{live, allocate, HasSize, HasSize-allocate}
use daux4pcs2m.Rfm.{Rfm2g}
use daux4pcs2m.Vs.State.{Vs}
use daux4pcs2m.Vs.Init.{Env}
use daux4pcs2m.Vs.Cycle.{Calc}
use daux4pcs2m.Daq.Scripts.{start_script, start_script_fits}
use daux4pcs2m.Mds.{MdsLib}
use daux4pcs2m.Mds.Trees.{create_tree-after}
use daux4pcs2m.Daux.Options.{Options}
use daux4pcs2m.Daux.Calib.{readcalib_lem}
use daux4pcs2m.Daux.Shot.{Daq, chns}
use daux4pcs2m.Daux.Shot.Acquire.{IsOpen}
use daux4pcs2m.Daux.Count.{rate, sample_count, sample_count_fits, mul_pos}
use daux4pcs2m.Daux.Main.{answer, server, tree, Input, Program, prepare}
use daux4pcs2m.Daux.Main.Waiting.{
  arm_within, rate_fits, contents_within, after_create, Waits, IsServable,
}

module _ ⦃m : Ieee⦄ (lib : MdsLib) {api : Rfm2g} {I : Type 0} (calc : Calc I)
    (create destroy : I → I) (env : Env) (o : Options) where
  open m use {widen, lit, of_int}

  -- What the preparation leaves for a shot.
  pub record IsPrepared (i : Input) (p : Program lib api I) (factors : List Float) (n : ℕ)
      (tick : m.Double) (q : Program lib api I) : Type 0 where
    pub r : ℤ
    pub rated : rate p.acq.clk_div ≡ ok r
    pub ticks : tick ≡ lit 1 0 ⧄ double_of r
    pub counted : sample_count i.total_time p.acq.clk_div ≡ ok (pos n)
    pub old : List Float
    pub old_calib : p.calib ≡ live old
    pub calib : q.calib ≡ live (overwrite old 0 factors)
    pub size_calib : length (overwrite old 0 factors) ≡ chns
    pub session : q.session ≡ after_create lib i.shot p.session
    pub baseline : q.daq.baseline ≡ p.daq.baseline
    pub scripts : q.acq.scripts ≡ start_script lib.decimal o.cycle ∷ p.acq.scripts

  -- A shot is prepared: its arrays are there, and the rest waits as before.
  pub prepare_within :
      (d size : ℕ) (s : Vs I) (i : Input) (p : Program lib api I)
      → o.acqonly ≡ true
      → o.saveall ≡ true
      → length (lib.decimal o.cycle) ≤ 11
      → Waits lib d size s p
      → (g : IsServable lib env i)
      → (n : ℕ) × (tick : m.Double) × (q : Program lib api I) × (prepare lib calc create destroy env
            o i p
          ≡ ok (n, tick, q))
        × IsOpen n s q.daq
        × Waits lib d size s q
        × IsPrepared i p g.factors n tick q
  unfolding prepare
  prepare_within d size s i p only saving cycled w g =
      let (r, er) = rate_fits d w.some_time in
      let (n, en, small, lasts) = sample_count_fits g.time d w.some_time w.slow g.short in
      let er' : rate p.acq.clk_div ≡ ok r = ap rate w.cycle_time ∙ er in
      let en' : sample_count i.total_time p.acq.clk_div ≡ ok (pos n) =
        ap (λ t. sample_count t p.acq.clk_div) g.total
        ∙ ap (sample_count (pos g.time)) w.cycle_time
        ∙ en in
      let made =
        create_tree-after lib server tree i.shot p.session (omega arith)
          (omega (arith, g.printed)) in
      let (xs, ex, size_xs) = contents_within p.calib chns w.calib in
      let read = readcalib_lem env.scan g.lines g.factors xs g.hold (omega (arith, g.few)) in
      let (host, ea, size_host, _) = arm_within p.acq size w.host w.sample w.latch in
      let script = start_script lib.decimal o.cycle in
      let run =
        start_script_fits lib.decimal o.cycle (record p.acq { host_buffer = host }) cycled in
      let values = allocate (pos chns *ℤ pos n) env.garbage.x in
      let size_values : HasSize (chns * n) values =
        rw (mul_pos chns n) (HasSize-allocate (chns * n) env.garbage.x) in
      let daq : Daq api I = record p.daq {
        timebase = allocate (pos n) nought;
        signal_data = values;
        vs = p.daq.vs;
      } in
      let tick = lit 1 0 ⧄ double_of r in
      let q : Program lib api I = record {
        acq = record p.acq { host_buffer = host; scripts = script ∷ p.acq.scripts };
        daq = daq;
        calib = live (overwrite xs 0 g.factors);
        zfbuf = p.zfbuf;
        session = after_create lib i.shot p.session;
        sent = answer ∷ p.sent;
      } in
      let ready : IsOpen n s daq = record {
        timebase = HasSize-allocate n nought;
        signal_data = size_values;
        baseline = w.baseline;
        vs = w.vs;
      } in
      let waits : Waits lib d size s q = record {
        cycle_time = w.cycle_time;
        some_time = w.some_time;
        slow = w.slow;
        host = size_host;
        sample = w.sample;
        latch = w.latch;
        calib = length-overwrite xs 0 g.factors ∙ size_xs;
        baseline = w.baseline;
        vs = w.vs;
      } in
      (
        n,
        tick,
        q,
        rw er' (
            rw en'
              (rw made (rw only (rw g.file (rw ex (rw read (rw ea (rw run (rw saving refl))))))))),
        ready,
        waits,
        record {
          r = r;
          rated = er';
          ticks = refl;
          counted = en';
          old = xs;
          old_calib = ex;
          calib = refl;
          size_calib = length-overwrite xs 0 g.factors ∙ size_xs;
          session = refl;
          baseline = refl;
          scripts = refl;
        },
      )
