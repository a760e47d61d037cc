-- ===== src/Daux/Main/Start.antt =====
-- `main` of daux.c from the command line on: the options, the device, the reflective memory, and
-- the loop over the shots, which does not end.
pub mod Archives
pub mod Unmapped
use daux4pcs2m.Base.{
  ℕ, ◌≤◌, ◌<◌, true, List, [], ◌∷◌, Option, none, some, All, ◌≡◌, refl, arith, length, replicate,
  length-replicate, ap, ◌∙◌,
}
use daux4pcs2m.Base.Int.{ℤ, pos}
use daux4pcs2m.Base.Text.{Text}
use daux4pcs2m.Real.{Ieee, Float, nought}
use daux4pcs2m.Memory.Result.{Result, ok, err, null_access, ◌>>=◌, Ends}
use daux4pcs2m.Memory.Buffer.{null, live, HasSize}
use daux4pcs2m.Memory.Copy.{memset, paste}
use daux4pcs2m.Rfm.{Rfm2g}
use daux4pcs2m.Rfm.Helper.{rfm_init}
use daux4pcs2m.Vs.State.{vs_init}
use daux4pcs2m.Vs.Init.{Env}
use daux4pcs2m.Vs.Cycle.{Calc}
use daux4pcs2m.Mds.{MdsLib}
use daux4pcs2m.Mds.Trees.{create_tree-after}
use daux4pcs2m.Daq.{Acq, Driver, acq_init}
use daux4pcs2m.Daq.Parameters.{Field, last_entry, or_old, AreShort, max_params}
use daux4pcs2m.Daq.Scripts.{start_script, init_script, init_script_fits}
use daux4pcs2m.Daq.Setup.{configure, acq2106_init, acq2106_init_lem, Serves, nshorts}
use daux4pcs2m.Daux.Calib.{readcalib_lem}
use daux4pcs2m.Daux.Count.{rate, sample_count, sample_count_fits}
use daux4pcs2m.Daux.Message.{Order, wait_for_shot_lem}
use daux4pcs2m.Daux.Options.{Flag, Options, options_init, parse}
use daux4pcs2m.Daux.Shot.{chns}
use daux4pcs2m.Daux.Main.{arm, prepare, serve, server, tree, Input, Program}
use daux4pcs2m.Daux.Main.Waiting.{Waits, IsServable, rate_fits}
use daux4pcs2m.Daux.Main.Loop.{
  Arrival, input_of, IsGood, IsWaiting, run_again, main_loop, main_loop_waits,
}

-- What the program finds when it starts: the options of the command line, `parameter.txt`, the
-- driver, the board of the reflective memory, and what is in `shot` and `total_time`.
pub record Start ⦃m : Ieee⦄ (lib : MdsLib) (api : Rfm2g) : Type 0 where
  pub flags : List Flag
  pub parameters : Option (List (Text × ℤ))
  pub driver : Driver
  pub board : api.Board
  pub session : lib.Session
  pub order : Order

module _ ⦃m : Ieee⦄ (lib : MdsLib) {api : Rfm2g} {I : Type 0} (inst : I) where
  -- The globals, once the device and the reflective memory are initialised. What `acq2106_init` and
  -- `rfm_init` return is not looked at.
  abbrev pub program_of : Start lib api → Acq → Program lib api I
  program_of start acq = record {
    acq = acq;
    daq = record {
      timebase = null;
      signal_data = null;
      baseline = replicate chns nought;
      vs = vs_init inst;
      link = (rfm_init api (record { result = 0; board = start.board })).1;
    };
    calib = live (replicate chns nought);
    zfbuf = [];
    session = start.session;
    sent = [];
  }

  unfoldable pub initialise : Start lib api → Result (Options × Program lib api I)
  initialise start = do
    o ← parse start.flags options_init
    (code, acq) ← acq2106_init lib.decimal start.driver start.parameters o.cycle 4 32 acq_init
    ok (o, program_of start acq)

module _ ⦃m : Ieee⦄ (lib : MdsLib) {api : Rfm2g} {I : Type 0} (inst : I) (calc : Calc I)
    (create destroy : I → I) (env : Env) where
  unfoldable pub main : Start lib api → List Arrival → Result (Order × Program lib api I)
  main start arrivals = do
    (o, p) ← initialise lib inst start
    main_loop lib calc create destroy env o arrivals start.order p
