-- ===== src/Tests/Start.antt =====
-- The program from its start on, on concrete input.
use daux4pcs2m.Base.{ℕ, true, List, [], ◌∷◌, some, none, ◌≡◌, refl, arith, replicate, length}
use daux4pcs2m.Base.Int.{pos}
use daux4pcs2m.Base.Text.{codes}
use daux4pcs2m.Real.Rational.{rational}
use daux4pcs2m.Memory.Result.{ok, err, null_access, Ends}
use daux4pcs2m.Vs.State.{vs_init}
use daux4pcs2m.Daq.{Driver}
use daux4pcs2m.Daq.Scripts.{start_script, init_script}
use daux4pcs2m.Daux.Options.{Options, options_init, parse, set_option, acquire, cycle}
use daux4pcs2m.Daux.Main.{answer}
use daux4pcs2m.Daux.Main.Answers.{HasServed, main_answers}
use daux4pcs2m.Daux.Main.Loop.{Arrival}
use daux4pcs2m.Daux.Main.Refines.{all_measured, Holds}
use daux4pcs2m.Daux.Main.Start.{Start, main}
use daux4pcs2m.Daux.Main.Start.Archives.{main_waits, main_archives}
use daux4pcs2m.Daux.Main.Start.Unmapped.{main_unmapped}
use daux4pcs2m.Tests.Reflective.{board}
use daux4pcs2m.Tests.Device.{parameter_file}
use daux4pcs2m.Tests.Serve.{num, decimal, server, unanswered, same}
use daux4pcs2m.Tests.Loop.{listening, arrival, first-IsGood}

abbrev words : List ℕ
words = replicate 160 1

abbrev memory_driver : Driver
memory_driver = record {
  log_opens = λ devnum. true;
  mapping = λ devnum. some words;
  start_ai_llc = λ len. true;
}

-- `daux -q -c 40`
abbrev at_start : Start server board
at_start = record {
  flags = acquire ∷ cycle (pos 40) ∷ [];
  parameters = some parameter_file;
  driver = memory_driver;
  board = none;
  session = [];
  order = record { shot = pos 0; total_time = pos 0 };
}

abbrev understood : Options
understood = record options_init { acqonly = true; cycle = pos 40 }

flags_understood : parse at_start.flags options_init ≡ ok understood
unfolding parse set_option
flags_understood = refl

abbrev arrivals : List Arrival
arrivals = arrival (codes "1234,5000000") ∷ []

main_waits_example :
    Ends
      (HasServed server 40
        (length words)
        (vs_init tt)
        (start_script decimal (pos 40) ∷ init_script decimal (pos 40) ∷ [])
        (answer ∷ []))
      (main server tt unanswered same same listening at_start arrivals)
main_waits_example =
    main_waits server tt at_start understood 40 parameter_file words flags_understood refl refl refl
      (omega arith) (omega arith) (omega arith) refl (omega arith) (omega arith)
      (omega arith, (omega arith, (omega arith, (omega arith, (omega arith, tt)))))
      (record { log_opens = refl; mapping = refl; starts = λ len small. refl }) (omega arith)
      unanswered same same listening arrivals (first-IsGood, tt)

-- The one shot is served.
served :
    Ends
      (HasServed server 40
        (length words)
        (vs_init tt)
        (start_script decimal (pos 40) ∷ init_script decimal (pos 40) ∷ [])
        (answer ∷ []))
      (main server tt unanswered same same listening at_start arrivals)
served =
    main_waits server tt at_start understood 40 parameter_file words flags_understood refl refl refl
      (omega arith) (omega arith) (omega arith) refl (omega arith) (omega arith)
      (omega arith, (omega arith, (omega arith, (omega arith, (omega arith, tt)))))
      (record { log_opens = refl; mapping = refl; starts = λ len small. refl }) (omega arith)
      unanswered same same listening arrivals (first-IsGood, tt)

main_answers_example : served.value.1.sent ≡ answer ∷ []
main_answers_example =
    main_answers server tt unanswered same same listening at_start arrivals served.value.0
      served.value.1 served.returns

main_archives_example :
    Ends
      (Holds server 40
        (all_measured server listening arrivals (first-IsGood, tt))
        (replicate 96 (num 0), []))
      (main server tt unanswered same same listening at_start arrivals)
main_archives_example =
    main_archives server tt at_start understood 40 parameter_file words flags_understood refl refl
      refl (omega arith) (omega arith) (omega arith) refl (omega arith) (omega arith)
      (omega arith, (omega arith, (omega arith, (omega arith, (omega arith, tt)))))
      (record { log_opens = refl; mapping = refl; starts = λ len small. refl }) (omega arith)
      unanswered same same listening arrivals (first-IsGood, tt)

main_unmapped_example :
    main server tt unanswered same same listening (record at_start { parameters = none }) arrivals
    ≡ err null_access
main_unmapped_example =
    main_unmapped server tt unanswered same same listening (record at_start { parameters = none })
      understood 40 (arrival (codes "1234,5000000")) [] flags_understood refl refl (omega arith)
      (omega arith) (omega arith) refl first-IsGood
