-- ===== src/Daux/Main/Start/Unmapped.antt =====
-- A start of daux.c without `parameter.txt`.
use daux4pcs2m.Base.{
  ℕ, ◌≤◌, ◌<◌, true, List, [], ◌∷◌, none, ◌≡◌, refl, arith, length, replicate, length-replicate, ap,
  ◌∙◌,
}
use daux4pcs2m.Base.Int.{pos}
use daux4pcs2m.Real.{Ieee, Float, nought}
use daux4pcs2m.Memory.Result.{ok, err, null_access}
use daux4pcs2m.Memory.Buffer.{null, live}
use daux4pcs2m.Memory.Copy.{memset, paste}
use daux4pcs2m.Rfm.{Rfm2g}
use daux4pcs2m.Vs.Init.{Env}
use daux4pcs2m.Vs.Cycle.{Calc}
use daux4pcs2m.Mds.{MdsLib}
use daux4pcs2m.Mds.Trees.{create_tree-after}
use daux4pcs2m.Daq.{Acq, acq_init}
use daux4pcs2m.Daq.Scripts.{init_script, init_script_fits}
use daux4pcs2m.Daq.Setup.{configure, acq2106_init}
use daux4pcs2m.Daux.Calib.{readcalib_lem}
use daux4pcs2m.Daux.Count.{rate, sample_count, sample_count_fits}
use daux4pcs2m.Daux.Message.{wait_for_shot_lem}
use daux4pcs2m.Daux.Options.{Options, options_init, parse}
use daux4pcs2m.Daux.Shot.{chns}
use daux4pcs2m.Daux.Main.{arm, prepare, serve, server, tree, Input, Program}
use daux4pcs2m.Daux.Main.Waiting.{IsServable, rate_fits}
use daux4pcs2m.Daux.Main.Loop.{Arrival, input_of, IsGood, main_loop}
use daux4pcs2m.Daux.Main.Start.{Start, program_of, initialise, main}

arm_null : (a : Acq) → a.host_buffer ≡ null → arm a ≡ err null_access
unfolding arm memset paste
arm_null a e = rw e refl

module _ ⦃m : Ieee⦄ (lib : MdsLib) {api : Rfm2g} {I : Type 0} (inst : I) (calc : Calc I)
    (create destroy : I → I) (env : Env) where
  serve_null :
      (o : Options) (c : ℕ) (i : Input) (p : Program lib api I) (factors : List Float)
      → o.acqonly ≡ true
      → p.acq.clk_div ≡ pos c
      → 0 < c
      → c ≤ 1000000
      → p.calib ≡ live factors
      → length factors ≡ chns
      → p.acq.host_buffer ≡ null
      → IsServable lib env i
      → serve lib calc create destroy env o i p ≡ err null_access
  unfolding serve prepare
  serve_null o c i p factors only cycle some_time slow calib size missing g =
      let (r, er) = rate_fits c some_time in
      let (n, en, small, lasts) = sample_count_fits g.time c some_time slow g.short in
      let er' : rate p.acq.clk_div ≡ ok r = ap rate cycle ∙ er in
      let en' : sample_count i.total_time p.acq.clk_div ≡ ok (pos n) =
        ap (λ t. sample_count t p.acq.clk_div) g.total
        ∙ ap (sample_count (pos g.time)) cycle
        ∙ en in
      let made =
        create_tree-after lib server tree i.shot p.session (omega arith)
          (omega (arith, g.printed)) in
      let read = readcalib_lem env.scan g.lines g.factors factors g.hold (omega (arith, g.few)) in
      rw er' (
        rw en'
          (rw made (rw only (rw g.file (rw calib (rw read (rw (arm_null p.acq missing) refl)))))))

  -- Without `parameter.txt`, the initialisation reports success before the memory of the device is
  -- mapped, and the program ends at the first message that could be served: it writes through a null
  -- pointer where the shot is armed. This is for a program that only acquires, with a cycle of 1 to
  -- 1000000 microseconds that is printed in at most 11 characters.
  pub main_unmapped :
      (start : Start lib api) (o : Options) (c : ℕ) (a : Arrival) (rest : List Arrival)
      → parse start.flags options_init ≡ ok o
      → o.acqonly ≡ true
      → o.cycle ≡ pos c
      → 0 < c
      → c ≤ 1000000
      → length (lib.decimal o.cycle) ≤ 11
      → start.parameters ≡ none
      → IsGood lib env a
      → main lib inst calc create destroy env start (a ∷ rest) ≡ err null_access
  unfolding main initialise acq2106_init configure main_loop
  main_unmapped start o c a rest parsed only cycle some_time slow cycled missing good =
      let run =
        init_script_fits lib.decimal o.cycle (record acq_init { clk_div = o.cycle }) cycled in
      let acq : Acq = record acq_init {
        clk_div = o.cycle;
        scripts = init_script lib.decimal o.cycle ∷ [];
      } in
      let heard =
        wait_for_shot_lem env.scan good.bytes good.order.shot good.order.total_time start.order
          good.message in
      let failed =
        serve_null o c (input_of a good.order) (program_of lib inst start acq)
          (replicate chns nought) only cycle some_time slow refl (length-replicate chns nought) refl
          good.servable in
      rw parsed (rw missing (rw run (rw good.arrived (rw heard (rw failed refl)))))
