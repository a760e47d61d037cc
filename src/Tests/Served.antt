-- ===== src/Tests/Served.antt =====
-- A round of the main loop that controls, on concrete input.
use daux4pcs2m.Base.{ℕ, zero, suc, [], some, ◌≡◌, refl, arith, ap, sym, replicate}
use daux4pcs2m.Base.Int.{pos}
use daux4pcs2m.Base.Text.{codes, fgets, tokens, same_text}
use daux4pcs2m.Real.Rational.{rational, Rational}
use daux4pcs2m.Memory.Result.{ok, ok-injective}
use daux4pcs2m.Memory.Buffer.{live, read, write}
use daux4pcs2m.Vs.State.{Vs}
use daux4pcs2m.Vs.Linear.{linear, fill}
use daux4pcs2m.Vs.Ztarget.{
  ◌>>=◌, pure, next_line, spoil, set_pair, next_round, lift, read_points, get_wave, read_z_cc,
  read_z_lm, read_column, read_rows, fill_row, read_z_gains, read_section, read_sections,
  read_ztarget,
}
use daux4pcs2m.Vs.Init.{
  sampled, cc_interpolation_data, lm_interpolation_data, interpolate, set_window, start_control,
  fastz_init,
}
use daux4pcs2m.Vs.Cycle.Arrays.{HasRows}
use daux4pcs2m.Memory.Result.{Ends}
use daux4pcs2m.Memory.Print.{print_to}
use daux4pcs2m.Memory.Copy.{memset, paste}
use daux4pcs2m.Daq.Words.{write_word}
use daux4pcs2m.Daq.Scripts.{acq2106_start, run_script}
use daux4pcs2m.Mds.{create_tree, command}
use daux4pcs2m.Daux.Calib.{readcalib, read_factors}
use daux4pcs2m.Daux.Count.{sample_count, quotient, in_int}
use daux4pcs2m.Daux.Options.{options_init}
use daux4pcs2m.Daux.Main.{arm, prepare, serve, Input, Program}
use daux4pcs2m.Vs.Clean.Right.{HeldWaves}
use daux4pcs2m.Daux.Main.Served.{serve_controls, IsTidy}
use daux4pcs2m.Tests.Prepared.{both_file, env}
use daux4pcs2m.Tests.Reflective.{board}
use daux4pcs2m.Tests.Serve.{server, program, num, same}
use daux4pcs2m.Tests.Shot.{seven}

-- A cycle of a second, so that a shot has 14 of them before its own time.
abbrev slow : Program server board Unit
slow = record program { acq = record program.acq { clk_div = pos 1000000 } }

abbrev message : Input
message = record {
  shot = pos 7;
  total_time = pos 0;
  zfile = some (both_file (codes "0,14\n"));
  calib_file = some [];
  device = λ k. replicate 96 (pos k);
}

begun :
    (tick : Rational) × (p : Program server board Unit) × (prepare server seven same same env
        options_init message slow
      ≡ ok (14, tick, p))
unfolding fastz_init start_control set_window interpolate cc_interpolation_data
    lm_interpolation_data sampled linear fill read_ztarget read_sections read_section read_z_cc
    read_z_lm read_column read_rows fill_row read_z_gains get_wave next_round lift read_points
    set_pair next_line spoil fgets tokens same_text ◌>>=◌ pure write prepare arm memset write_word
    acq2106_start run_script create_tree command paste readcalib read_factors sample_count quotient
    in_int print_to
begun = (_, _, refl)

abbrev started : Vs Unit
started = begun.1.daq.vs

zeros_read : (n i : ℕ) (v : Rational) → read (live (replicate n (num 0))) i ≡ ok v → v ≡ num 0
unfolding read
zeros_read zero i v e = cc
zeros_read (suc n) zero v e = sym (ok-injective e)
zeros_read (suc n) (suc i) v e = zeros_read n i v e

zero_row : (v : Rational) → v ≡ num 0 → rational.to_int v ≡ pos 0
zero_row v e = ap rational.to_int e

started-HasRows : HasRows started.config started.targets
unfolding read begun
started-HasRows = record {
  e_row = λ i v e. (0, zero_row v (zeros_read 14 i v e), _, refl, refl);
  m_row = λ i v e. (0, zero_row v (zeros_read 14 i v e), _, refl);
}

started-HeldWaves : HeldWaves started.algmask (started.config, started.targets)
unfolding begun
started-HeldWaves = (_, (_, _, (_, refl, omega arith, _), _), _, _, _)

serve_controls_example :
    Ends
      (IsTidy server seven options_init begun.0 message 14 slow begun.1)
      (serve server seven same same env options_init message slow)
unfolding begun sample_count quotient in_int
serve_controls_example =
    serve_controls server seven same same env options_init 14 begun.0 message slow begun.1 refl refl
      refl refl refl refl begun.2 refl refl refl refl started-HasRows started-HeldWaves
      λ k. omega arith
