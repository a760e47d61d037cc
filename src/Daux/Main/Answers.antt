-- ===== src/Daux/Main/Answers.antt =====
-- The answers that `main` of daux.c sends.
use daux4pcs2m.Base.{ℕ, List, [], ◌∷◌, ◌≡◌, ◌∙◌, length, arith, ap}
use daux4pcs2m.Base.Int.{ℤ}
use daux4pcs2m.Base.Text.{Text}
use daux4pcs2m.Real.{Ieee, Dbl}
use daux4pcs2m.Memory.Result.{ok, >>=-eq-ok}
use daux4pcs2m.Memory.Buffer.{contents}
use daux4pcs2m.Rfm.{Rfm2g}
use daux4pcs2m.Vs.State.{Vs}
use daux4pcs2m.Vs.Init.{Env}
use daux4pcs2m.Vs.Cycle.{Calc}
use daux4pcs2m.Mds.{MdsLib}
use daux4pcs2m.Daux.Options.{Options}
use daux4pcs2m.Daux.Message.{Order, wait_for_shot}
use daux4pcs2m.Daux.Shot.{cycles}
use daux4pcs2m.Daux.Main.{answer, data_of, Input, Program, prepare, archive, clean, serve}
use daux4pcs2m.Daux.Main.Loop.{Arrival, input_of, IsWaiting, run_again, main_loop}
use daux4pcs2m.Daux.Main.Start.{Start, main, initialise}

module _ ⦃m : Ieee⦄ (lib : MdsLib) {api : Rfm2g} {I : Type 0} where
  -- The program waits, with these scripts run and these answers sent, the last ones first.
  abbrev pub HasServed : ℕ → ℕ → Vs I → List Text → List Text → Order × Program lib api I → Type 0
  HasServed d size s scripts answers (order, p) =
      IsWaiting lib d size s scripts (order, p) × (p.sent ≡ answers)

module _ ⦃m : Ieee⦄ (lib : MdsLib) {api : Rfm2g} {I : Type 0} (calc : Calc I)
    (create destroy : I → I) (env : Env) (o : Options) where
  prepare_answers :
      (i : Input) (p : Program lib api I) (n : ℕ) (tick : Dbl) (q : Program lib api I)
      → prepare lib calc create destroy env o i p ≡ ok (n, tick, q)
      → q.sent ≡ answer ∷ p.sent
  unfolding prepare
  prepare_answers i p n tick q e = ground arith

  archive_silent :
      (shot : ℤ) (n : ℕ) (p q : Program lib api I)
      → archive lib calc create destroy env o shot n p ≡ ok q
      → q.sent ≡ p.sent
  unfolding archive
  archive_silent shot n p q e = ground arith

  clean_silent :
      (p q : Program lib api I) → clean lib calc create destroy env o p ≡ ok q → q.sent ≡ p.sent
  unfolding clean
  clean_silent p q e = ground arith

  -- A round sends one answer.
  pub serve_answers :
      (i : Input) (p q : Program lib api I)
      → serve lib calc create destroy env o i p ≡ ok q
      → q.sent ≡ answer ∷ p.sent
  unfolding serve
  serve_answers i p q e =
      let ((n, tick, p1), e1, f1) = >>=-eq-ok (prepare lib calc create destroy env o i p) _ e in
      let (calib, e2, f2) = >>=-eq-ok (contents p1.calib) _ f1 in
      let (daq, e3, f3) =
        >>=-eq-ok (cycles calc o calib tick n 0 (data_of i.device 0 n) p1.daq) _ f2 in
      let (p2, e4, f4) =
        >>=-eq-ok (archive lib calc create destroy env o i.shot n (record p1 { daq = daq })) _ f3 in
      clean_silent p2 q f4
      ∙ archive_silent i.shot n (record p1 { daq = daq }) p2 e4
      ∙ prepare_answers i p n tick p1 e1

  pub main_loop_answers :
      (arrivals : List Arrival) (order last : Order) (p q : Program lib api I)
      → main_loop lib calc create destroy env o arrivals order p ≡ ok (last, q)
      → q.sent ≡ run_again (length arrivals) answer p.sent
  unfolding main_loop
  main_loop_answers [] order last p q e = ground arith
  main_loop_answers (a ∷ rest) order last p q e =
      let (order', e1, f1) = >>=-eq-ok (wait_for_shot env.scan a.datagram order) _ e in
      let (p', e2, f2) =
        >>=-eq-ok (serve lib calc create destroy env o (input_of a order') p) _ f1 in
      main_loop_answers rest order' last p' q f2
      ∙ ap (run_again (length rest) answer) (serve_answers (input_of a order') p p' e2)

module _ ⦃m : Ieee⦄ (lib : MdsLib) {api : Rfm2g} {I : Type 0} (inst : I) (calc : Calc I)
    (create destroy : I → I) (env : Env) where
  initialise_silent :
      (start : Start lib api) (o : Options) (p : Program lib api I)
      → initialise lib inst start ≡ ok (o, p)
      → p.sent ≡ []
  unfolding initialise
  initialise_silent start o p e = ground arith

  -- Each message gets one answer, whatever the options are and whatever was measured: once the
  -- program waits again after some arrivals, it has sent the text `Abracadabra` once for each of
  -- them, and nothing else.
  pub main_answers :
      (start : Start lib api) (arrivals : List Arrival) (last : Order) (q : Program lib api I)
      → main lib inst calc create destroy env start arrivals ≡ ok (last, q)
      → q.sent ≡ run_again (length arrivals) answer []
  unfolding main
  main_answers start arrivals last q e =
      let ((o, p), e1, f1) = >>=-eq-ok (initialise lib inst start) _ e in
      main_loop_answers lib calc create destroy env o arrivals start.order last p q f1
      ∙ ap (run_again (length arrivals) answer) (initialise_silent start o p e1)
