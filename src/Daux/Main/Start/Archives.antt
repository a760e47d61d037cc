-- ===== src/Daux/Main/Start/Archives.antt =====
-- What comes of a start of daux.c that only acquires.
use daux4pcs2m.Base.{
  ℕ, ◌≤◌, ◌<◌, true, List, [], ◌∷◌, some, All, ◌≡◌, refl, arith, length, replicate,
  length-replicate, ◌∙◌,
}
use daux4pcs2m.Base.Int.{ℤ, pos}
use daux4pcs2m.Base.Text.{Text}
use daux4pcs2m.Real.{Ieee, nought}
use daux4pcs2m.Memory.Result.{ok, Ends}
use daux4pcs2m.Memory.Buffer.{live, HasSize}
use daux4pcs2m.Rfm.{Rfm2g}
use daux4pcs2m.Vs.State.{vs_init}
use daux4pcs2m.Vs.Init.{Env}
use daux4pcs2m.Vs.Cycle.{Calc}
use daux4pcs2m.Mds.{MdsLib}
use daux4pcs2m.Daq.{acq_init}
use daux4pcs2m.Daq.Parameters.{Field, last_entry, or_old, AreShort, max_params}
use daux4pcs2m.Daq.Scripts.{start_script, init_script}
use daux4pcs2m.Daq.Setup.{acq2106_init_lem, Serves, nshorts}
use daux4pcs2m.Daux.Options.{Options, options_init, parse}
use daux4pcs2m.Daux.Shot.{chns}
use daux4pcs2m.Daux.Main.{answer, Program}
use daux4pcs2m.Daux.Main.Answers.{HasServed, main_answers}
use daux4pcs2m.Daux.Main.Waiting.{Waits}
use daux4pcs2m.Daux.Main.Loop.{Arrival, IsGood, run_again, main_loop_waits}
use daux4pcs2m.Daux.Main.Start.{Start, program_of, initialise, main}
use daux4pcs2m.Daux.Main.Refines.{all_measured, Holds, main_loop_archives}

module _ ⦃m : Ieee⦄ (lib : MdsLib) {api : Rfm2g} {I : Type 0} (inst : I) (start : Start lib api)
    (o : Options) (c : ℕ) (entries : List (Text × ℤ)) (ws : List ℕ)
    (parsed : parse start.flags options_init ≡ ok o) (only : o.acqonly ≡ true)
    (saving : o.saveall ≡ true) (cycle : o.cycle ≡ pos c) (some_time : 0 < c) (slow : c ≤ 1000000)
    (cycled : length (lib.decimal o.cycle) ≤ 11) (file : start.parameters ≡ some entries)
    (some_entry : 0 < length entries) (few : length entries ≤ max_params) (short : AreShort entries)
    (serves : Serves start.driver
      (or_old (last_entry Field.devnum entries) acq_init.settings.devnum)
      ws)
    (room : nshorts ≤ length ws) where
  -- The program waits for its first message.
  initialise_waits :
      (p : Program lib api I) × (initialise lib inst start ≡ ok (o, p))
      × Waits lib c (length ws) (vs_init inst) p
      × (p.acq.scripts ≡ init_script lib.decimal o.cycle ∷ [])
      × (p.calib ≡ live (replicate chns nought))
      × (p.session ≡ start.session)
  unfolding initialise
  initialise_waits =
      let (a, e, dev, ao, do32, dup, nchan, ai, card, host, divided, ran) =
        acq2106_init_lem lib.decimal start.driver entries o.cycle 4 32 acq_init ws cycled some_entry
          few (omega arith) short (omega arith) serves in
      let size : HasSize (length ws) a.host_buffer = rw host refl in
      let waits : Waits lib c (length ws) (vs_init inst) (program_of lib inst start a) = record {
        cycle_time = divided ∙ cycle;
        some_time = some_time;
        slow = slow;
        host = size;
        sample = room;
        latch = rw nchan (omega arith);
        calib = length-replicate chns nought;
        baseline = length-replicate chns nought;
        vs = refl;
      } in
      (program_of lib inst start a, rw parsed (rw file (rw e refl)), waits, ran, refl, refl)

  module _ (calc : Calc I) (create destroy : I → I) (env : Env) (arrivals : List Arrival)
      (good : All (IsGood lib env) arrivals) where
    -- The program serves every shot that it is asked for, from its start on: with options that are
    -- understood and make it only acquire and save, a cycle of 1 to 1000000 microseconds that is
    -- printed in at most 11 characters, a `parameter.txt` of one to 10 entries with short names, and
    -- a driver that serves a device with a memory of at least 160 shorts, whatever the reflective
    -- memory answers, and for arrivals that are all messages with files, a time and data with which a
    -- shot can be served, each of them is served without a fault, and the program waits again, with
    -- the control as it was at the start. The device was initialised once, before all, and started
    -- once for each message, which was answered once with the text `Abracadabra`; nothing else was sent.
    pub main_waits :
        Ends
          (HasServed lib c
            (length ws)
            (vs_init inst)
            (run_again
              (length arrivals)
              (start_script lib.decimal o.cycle)
              (init_script lib.decimal o.cycle ∷ []))
            (run_again (length arrivals) answer []))
          (main lib inst calc create destroy env start arrivals)
    unfolding main
    main_waits =
        let (p, e, waits, ran, held, session) = initialise_waits in
        let ends =
          main_loop_waits lib calc create destroy env o c (length ws) (vs_init inst) arrivals
            start.order p (init_script lib.decimal o.cycle ∷ []) only saving cycled waits ran
            good in
        let returns : main lib inst calc create destroy env start arrivals ≡ ok ends.value =
          rw e ends.returns in
        record {
          value = ends.value;
          returns = returns;
          holds = (
            ends.holds,
            main_answers lib inst calc create destroy env start arrivals ends.value.0 ends.value.1
                returns,
          );
        }

    -- What the program archives, from its start on, is what the abstract archive makes of the shots
    -- that the messages ask for, one after the other; that is a function of their numbers, times,
    -- calibration files and data, of the cycle and of the MDSplus library: each shot gets its tree
    -- and the rows of its channels, with the calibration factors that the files up to it give, 0 at
    -- first, and a base line that begins at 0. This is for options that are understood and make the
    -- program only acquire and save, a cycle of 1 to 1000000 microseconds that is printed in at
    -- most 11 characters, a `parameter.txt` of one to 10 entries with short names, a driver that
    -- serves a device with a memory of at least 160 shorts, and arrivals that are all messages with
    -- files, a time and data with which a shot can be served; whatever the reflective memory
    -- answers.
    pub main_archives :
        Ends
          (Holds lib c (all_measured lib env arrivals good) (replicate chns nought, start.session))
          (main lib inst calc create destroy env start arrivals)
    unfolding main
    main_archives =
        let (p, e, waits, ran, held, session) = initialise_waits in
        let ends =
          main_loop_archives lib calc create destroy env o c (length ws) (vs_init inst)
            (replicate chns nought) arrivals start.order p only saving cycled waits held good in
        rw e (rw session at ends)
