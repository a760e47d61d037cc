-- ===== src/Daux/Main/Serve.antt =====
-- The loop over the shots in `main` of daux.c goes on, for a program that only acquires.
use daux4pcs2m.Base.{◌≤◌, length, ℕ, ◌*◌, true, List, [], ◌∷◌, All, ◌≡◌, refl, ap, overwrite}
use daux4pcs2m.Base.Int.{ℤ, pos}
use daux4pcs2m.Real.{Ieee, Float, double_of, ◌⧄◌}
use daux4pcs2m.Memory.Result.{Result, ok, Ends, Ends-ok}
use daux4pcs2m.Memory.Buffer.{freed, live, contents, free_live}
use daux4pcs2m.Rfm.{Rfm2g}
use daux4pcs2m.Vs.State.{Vs}
use daux4pcs2m.Vs.Init.{Env}
use daux4pcs2m.Vs.Cycle.{Calc}
use daux4pcs2m.Daq.Scripts.{start_script}
use daux4pcs2m.Mds.{MdsLib, open_tree}
use daux4pcs2m.Daux.Options.{Options}
use daux4pcs2m.Daux.Shot.{Daq, cycles, chns}
use daux4pcs2m.Daux.Shot.Acquire.{IsOpen}
use daux4pcs2m.Daux.Count.{rate, sample_count}
use daux4pcs2m.Daux.Signals.{signal_list, save_signal}
use daux4pcs2m.Daux.Signals.Rows.{put_rows, rows_moved, save_signal-put_rows}
use daux4pcs2m.Daux.Main.{data_of, server, tree, Input, Program, archive, clean, serve, serve_all}
use daux4pcs2m.Daux.Main.Waiting.{
  length-data_of, HaveData-data_of, moved, after_create, Waits, IsServable,
}
use daux4pcs2m.Daux.Main.Prepared.{prepare_within}

module _ ⦃m : Ieee⦄ (lib : MdsLib) {api : Rfm2g} {I : Type 0} where
  open m use {lit}

  -- What a shot writes to its tree, once it is made.
  abbrev pub rows_of : Input → List Float → ℤ → ℕ → Program lib api I → Result lib.Session
  rows_of i calib r n p =
      put_rows lib calib (lit 1 0 ⧄ double_of r) (data_of i.device 0 n) p.daq.baseline signal_list 0
        (open_tree lib server tree i.shot (after_create lib i.shot p.session)).1

module _ ⦃m : Ieee⦄ (lib : MdsLib) {api : Rfm2g} {I : Type 0} (calc : Calc I)
    (create destroy : I → I) (env : Env) (o : Options) where
  open m use {widen, lit, of_int}

  -- The archive of a shot, once its signals are saved.
  archive_saved :
      (n : ℕ) (shot : ℤ) (saved : lib.Session) (p : Program lib api I)
      → o.acqonly ≡ true
      → o.saveall ≡ true
      → save_signal lib p.daq.timebase p.daq.signal_data n
          (open_tree lib server tree shot p.session).1
        ≡ ok saved
      → archive lib calc create destroy env o shot n p
        ≡ ok (record p { session = (lib.close_shot tree shot saved).1 })
  unfolding archive
  archive_saved n shot saved p only saving e = rw saving (rw e (rw only refl))

  clean_frees :
      (n : ℕ) (s : Vs I) (p : Program lib api I)
      → o.acqonly ≡ true
      → o.saveall ≡ true
      → IsOpen n s p.daq
      → clean lib calc create destroy env o p
        ≡ ok (record p { daq = record p.daq { timebase = freed; signal_data = freed } })
  unfolding clean
  clean_frees n s p only saving ready =
      let ft = free_live p.daq.timebase n ready.timebase in
      let fs = free_live p.daq.signal_data (chns * n) ready.signal_data in
      rw saving (rw only (rw ft (rw fs refl)))

  -- A message that can be served, for a program that waits, with `-q` and saving: the shot goes
  -- right, the program waits again with its control untouched, and its session with the MDSplus
  -- library is the one after these calls: the tree of the shot is made and opened, the rows of all
  -- channels are put, and the tree is closed. The rows are those of the table for the data of the
  -- device, for as many cycles as the count of the samples says, with the numbers of the calibration
  -- file in place of the first ones of the old factors. The script that starts the device was run
  -- once, with the time of the cycle in its text, of at most 11 characters. These numbers stay in the
  -- calibration factors for the next shot.
  pub serve_archives :
      (d size : ℕ) (s : Vs I) (i : Input) (p : Program lib api I)
      → o.acqonly ≡ true
      → o.saveall ≡ true
      → length (lib.decimal o.cycle) ≤ 11
      → Waits lib d size s p
      → (g : IsServable lib env i)
      → (r : ℤ) × (n : ℕ) × (old : List Float) × (saved : lib.Session) × (p' : Program lib api I)
        × (rate p.acq.clk_div ≡ ok r)
        × (sample_count i.total_time p.acq.clk_div ≡ ok (pos n))
        × (p.calib ≡ live old)
        × (rows_of lib i (overwrite old 0 g.factors) r n p ≡ ok saved)
        × (serve lib calc create destroy env o i p ≡ ok p')
        × (p'.session ≡ (lib.close_shot tree i.shot saved).1)
        × (p'.acq.scripts ≡ start_script lib.decimal o.cycle ∷ p.acq.scripts)
        × (p'.calib ≡ live (overwrite old 0 g.factors))
        × Waits lib d size s p'
  unfolding serve
  serve_archives d size s i p only saving cycled w g =
      let (n, tick, p1, e1, ready, w1, made) =
        prepare_within lib calc create destroy env o d size s i p only saving cycled w g in
      let calib = overwrite made.old 0 g.factors in
      let raws = data_of i.device 0 n in
      let len : length raws ≡ n = length-data_of i.device 0 n in
      let opened = (open_tree lib server tree i.shot p1.session).1 in
      let (daq, saved, e2, es, rows, over) =
        save_signal-put_rows lib calc o calib tick raws s p1.daq opened only saving made.size_calib
          (rw len ready) (HaveData-data_of i.device 0 n g.full) in
      let p2 : Program lib api I = record p1 { daq = daq } in
      let e2' : cycles calc o calib tick n 0 raws p1.daq ≡ ok daq = rw len at e2 in
      let es' : save_signal lib daq.timebase daq.signal_data n opened ≡ ok saved = rw len at es in
      let ready' : IsOpen n s daq = rw len at over in
      let ea = archive_saved n i.shot saved p2 only saving es' in
      let closed = (lib.close_shot tree i.shot saved).1 in
      let ef = clean_frees n s (record p2 { session = closed }) only saving ready' in
      let read_calib : contents p1.calib ≡ ok calib = ap contents made.calib in
      let tidy : Daq api I = record daq { timebase = freed; signal_data = freed } in
      let last : Program lib api I = record p2 { daq = tidy; session = closed } in
      let rows' : rows_of lib i calib made.r n p ≡ ok saved =
        rows_moved lib calib raws signal_list made.ticks made.baseline
          (ap (λ x. (open_tree lib server tree i.shot x).1) made.session) rows in
      (
        made.r,
        n,
        made.old,
        saved,
        last,
        made.rated,
        made.counted,
        made.old_calib,
        rows',
        rw e1 (rw read_calib (rw e2' (rw ea ef))),
        refl,
        made.scripts,
        made.calib,
        moved lib w1 tidy closed ready'.baseline ready'.vs,
      )

  -- With `-q` and saving, the loop over the shots goes on: from a program that waits for a
  -- message, and for any messages that can be served, one after the other, every shot is prepared,
  -- acquired, archived and cleaned up without a fault, whatever the data is, and the program waits
  -- for the next message as it did before the first one, with the state of the control untouched.
  pub serve_all_waits :
      (d size : ℕ) (s : Vs I) (is : List Input) (p : Program lib api I)
      → o.acqonly ≡ true
      → o.saveall ≡ true
      → length (lib.decimal o.cycle) ≤ 11
      → Waits lib d size s p
      → All (IsServable lib env) is
      → Ends (Waits lib d size s) (serve_all lib calc create destroy env o is p)
  unfolding serve_all
  serve_all_waits d size s [] p only saving cycled w good = Ends-ok p w
  serve_all_waits d size s (i ∷ is) p only saving cycled w (now, later) =
      let (r, n, old, saved, p', er, en, ec, rows, e, es, ran, held, w') =
        serve_archives d size s i p only saving cycled w now in
      rw e (serve_all_waits d size s is p' only saving cycled w' later)
