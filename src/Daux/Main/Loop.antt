-- ===== src/Daux/Main/Loop.antt =====
-- The outer loop of `main` in daux.c, from the datagrams on.
use daux4pcs2m.Base.{
  zero, suc, ap, ◌∙◌, ◌≤◌, length, ℕ, true, List, [], ◌∷◌, Option, some, All, ◌≡◌,
}
use daux4pcs2m.Base.Int.{ℤ}
use daux4pcs2m.Base.Text.{Text, Stream}
use daux4pcs2m.Real.{Ieee}
use daux4pcs2m.Memory.Result.{Result, ok, ◌>>=◌, Ends, Ends-ok}
use daux4pcs2m.Rfm.{Rfm2g}
use daux4pcs2m.Vs.State.{Vs}
use daux4pcs2m.Vs.Init.{Env}
use daux4pcs2m.Vs.Cycle.{Calc}
use daux4pcs2m.Mds.{MdsLib}
use daux4pcs2m.Daux.Message.{Order, wait_for_shot, wait_for_shot_lem, IsMessage}
use daux4pcs2m.Daq.Scripts.{start_script}
use daux4pcs2m.Daux.Options.{Options}
use daux4pcs2m.Daux.Main.{Input, Program, serve}
use daux4pcs2m.Daux.Main.Waiting.{Waits, IsServable}
use daux4pcs2m.Daux.Main.Serve.{serve_archives}

-- What arrives at the socket, and what the program finds then.
pub record Arrival : Type 0 where
  pub datagram : Option (List ℕ)
  pub zfile : Option Stream
  pub calib_file : Option (List Text)
  pub device : ℕ → List ℤ

abbrev pub input_of : Arrival → Order → Input
input_of a o = record {
  shot = o.shot;
  total_time = o.total_time;
  zfile = a.zfile;
  calib_file = a.calib_file;
  device = a.device;
}

-- A script, a number of times on top of others.
abbrev pub run_again : ℕ → Text → List Text → List Text
run_again zero script old = old
run_again (suc n) script old = run_again n script (script ∷ old)

module _ ⦃m : Ieee⦄ (lib : MdsLib) (env : Env) where
  -- An arrival that can be served: a message, and what `serve` wants.
  pub record IsGood (a : Arrival) : Type 0 where
    pub order : Order
    pub bytes : List ℕ
    pub arrived : a.datagram ≡ some bytes
    pub message : IsMessage env.scan bytes order.shot order.total_time
    pub servable : IsServable lib env (input_of a order)

module _ ⦃m : Ieee⦄ (lib : MdsLib) {api : Rfm2g} {I : Type 0} where
  -- The program waits, in some session, and has run these scripts, the last one first.
  abbrev pub IsWaiting : ℕ → ℕ → Vs I → List Text → Order × Program lib api I → Type 0
  IsWaiting d size s scripts (order, p) = Waits lib d size s p × (p.acq.scripts ≡ scripts)

module _ ⦃m : Ieee⦄ (lib : MdsLib) {api : Rfm2g} {I : Type 0} (calc : Calc I)
    (create destroy : I → I) (env : Env) (o : Options) where
  -- `shot` and `total_time` live as long as the program.
  unfoldable pub main_loop :
      List Arrival → Order → Program lib api I → Result (Order × Program lib api I)
  main_loop [] order p = ok (order, p)
  main_loop (a ∷ rest) order p = do
    order' ← wait_for_shot env.scan a.datagram order
    p' ← serve lib calc create destroy env o (input_of a order') p
    main_loop rest order' p'

  -- With `-q` and saving, the program goes on: from a program that waits, and for any
  -- arrivals of which each is a message of fewer than 32 bytes that `sscanf` reads as a shot and a
  -- time, for files, a time and data with which a shot can be served, every message is understood and
  -- its shot goes right, whatever the message before was, and the program waits again, with the
  -- state of the control untouched, and the script that starts the device was run once for each of
  -- them, with the time of the cycle in its text, of at most 11 characters.
  pub main_loop_waits :
      (d size : ℕ) (s : Vs I) (arrivals : List Arrival) (order : Order) (p : Program lib api I)
      (scripts : List Text)
      → o.acqonly ≡ true
      → o.saveall ≡ true
      → length (lib.decimal o.cycle) ≤ 11
      → Waits lib d size s p
      → p.acq.scripts ≡ scripts
      → All (IsGood lib env) arrivals
      → Ends
          (IsWaiting lib d size s
            (run_again (length arrivals) (start_script lib.decimal o.cycle) scripts))
          (main_loop arrivals order p)
  unfolding main_loop
  main_loop_waits d size s [] order p scripts only saving cycled w before good =
      Ends-ok (order, p) (w, before)
  main_loop_waits d size s (a ∷ rest) order p scripts only saving cycled w before (now, later) =
      let heard =
        wait_for_shot_lem env.scan now.bytes now.order.shot now.order.total_time order
          now.message in
      let (r, n, old, saved, p', er, en, ec, rows, e, es, ran, held, w') =
        serve_archives lib calc create destroy env o d size s (input_of a now.order) p only saving
          cycled w now.servable in
      rw now.arrived (
        rw heard (
          rw e (
            main_loop_waits d size s rest now.order p' (start_script lib.decimal o.cycle ∷ scripts)
              only saving cycled w' (ran ∙ ap (λ x. start_script lib.decimal o.cycle ∷ x) before)
              later)))
