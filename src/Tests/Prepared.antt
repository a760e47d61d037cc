-- ===== src/Tests/Prepared.antt =====
-- A ztarget file with both algorithms, from the file to the archive, on concrete input.
use daux4pcs2m.Base.{
  ℕ, zero, suc, ◌+◌, ◌-◌, ◌*◌, ltb, ◌&&◌, if◌then◌else◌, List, [], ◌∷◌, some, none, ◌≡◌, refl,
  false, arith, replicate, ap, sym,
}
use daux4pcs2m.Base.Int.{ℤ, pos}
use daux4pcs2m.Base.Text.{Text, codes, Scan, Stream, fgets, tokens, same_text}
use daux4pcs2m.Real.Rational.{rational, Rational}
use daux4pcs2m.Memory.Result.{ok, ok-injective}
use daux4pcs2m.Memory.Buffer.{live, allocate, HasSize-allocate, read, write}
use daux4pcs2m.Vs.State.{Vs, vs_init}
use daux4pcs2m.Vs.Linear.{linear, fill}
use daux4pcs2m.Vs.Ztarget.{
  ◌>>=◌, pure, next_line, spoil, set_pair, next_round, lift, read_points, get_wave, read_z_cc,
  read_z_lm, read_column, read_rows, fill_row, read_z_gains, read_section, read_sections,
  read_ztarget,
}
use daux4pcs2m.Vs.Init.{
  Env, sampled, cc_interpolation_data, lm_interpolation_data, interpolate, set_window,
  start_control, fastz_init,
}
use daux4pcs2m.Vs.Init.Ready.{fastz_init-IsReady}
use daux4pcs2m.Vs.Cycle.Arrays.{HasRows}
use daux4pcs2m.Vs.Cycle.Ready.{IsReady}
use daux4pcs2m.Daux.Options.{options_init}
use daux4pcs2m.Daux.Shot.{Daq}
use daux4pcs2m.Daux.Shot.Acquire.{IsOpen}
use daux4pcs2m.Daux.Main.{Program}
use daux4pcs2m.Daux.Main.Archived.{IsArchived}
use daux4pcs2m.Daux.Main.Controlled.{controlled}
use daux4pcs2m.Daux.Main.Whole.{prepared_shot}
use daux4pcs2m.Tests.Reflective.{board}
use daux4pcs2m.Tests.File.{junk, unspaced}
use daux4pcs2m.Tests.Serve.{server, program, num, same}
use daux4pcs2m.Tests.Shot.{some_scratch, seven, factors}

-- The digits in front of a text, as a number.
abbrev number_from : ℕ → Text → ℕ × Text
number_from n [] = (n, [])
number_from n (c ∷ s) =
    let more = number_from (n * 10 + (c - 48)) s in
    if ltb 47 c && ltb c 58 then more else (n, c ∷ s)

abbrev number : Text → ℕ × Text
number s = number_from 0 (unspaced s)

abbrev numbers : Scan Rational
numbers = record {
  scan_int = λ s. some (pos (number s).0, (number s).1);
  scan_float = λ s. some (num (number s).0, (number s).1);
}

-- `n` waveforms of the value 0, with a vertex behind the end of the shot.
abbrev zero_waves : ℕ → List Text → List Text
zero_waves zero rest = rest
zero_waves (suc n) rest = codes "1\n" ∷ codes "99,0\n" ∷ zero_waves n rest

-- Both algorithms over the times in this line.
abbrev pub both_file : Text → Stream
both_file times = record {
  rest =
      codes "coilcurrent\n"
      ∷ times
      ∷ zero_waves 4 (
          codes "limited\n"
          ∷ times
          ∷ zero_waves 2 (codes "1\n" ∷ zero_waves 1 (codes "1 2\n" ∷ zero_waves 8 [])));
  eof = false;
  cut_short = false;
}

-- From 0 to 2.
abbrev two : Stream
two = both_file (codes "0,2\n")

abbrev pub env : Env
env = record {
  scan = numbers;
  garbage = junk;
  garbage_scratch = some_scratch;
  read_fuel = 9;
  sample_fuel = 20;
}

unfoldable pub prepared :
    (t : Vs Unit) × (text : Text) × (fastz_init same env (num 1) (some two) [] (vs_init tt)
      ≡ ok (t, text))
unfolding fastz_init start_control set_window interpolate cc_interpolation_data
    lm_interpolation_data sampled linear fill read_ztarget read_sections read_section read_z_cc
    read_z_lm read_column read_rows fill_row read_z_gains get_wave next_round lift read_points
    set_pair next_line spoil fgets tokens same_text ◌>>=◌ pure write
prepared = (_, _, refl)

abbrev pub started : Vs Unit
started = prepared.0

zero_read : (i : ℕ) (v : Rational) → read (live (num 0 ∷ num 0 ∷ [])) i ≡ ok v → v ≡ num 0
unfolding read
zero_read zero v e = sym (ok-injective e)
zero_read (suc zero) v e = sym (ok-injective e)
zero_read (suc (suc i)) v e = cc

zero_row : (v : Rational) → v ≡ num 0 → rational.to_int v ≡ pos 0
zero_row v e = ap rational.to_int e

started-HasRows : HasRows started.config started.targets
unfolding read prepared
started-HasRows = record {
  e_row = λ i v e. (0, zero_row v (zero_read i v e), _, refl, refl);
  m_row = λ i v e. (0, zero_row v (zero_read i v e), _, refl);
}

fastz_init-IsReady_example : IsReady 2 started × (started.vs_cycle ≡ 0)
unfolding prepared
fastz_init-IsReady_example =
    fastz_init-IsReady same env 2 (num 1) (some two) [] prepared.1 (vs_init tt) started prepared.2
      refl refl refl refl started-HasRows

abbrev measured : List (List ℤ)
measured = replicate 96 (pos 1) ∷ replicate 96 (pos 2) ∷ []

abbrev opened : Daq board Unit
opened = record {
  timebase = live (num 0 ∷ num 0 ∷ []);
  signal_data = allocate (pos (96 * 2)) (num 0);
  baseline = replicate 96 (num 0);
  vs = started;
  link = record { result = 0; board = none };
}

opened-IsOpen : IsOpen 2 started opened
opened-IsOpen = record {
  timebase = refl;
  signal_data = HasSize-allocate (96 * 2) (num 0);
  baseline = refl;
  vs = refl;
}

abbrev begins : Program server board Unit
begins = record program { daq = opened }

prepared_shot_example :
    (q : Program server board Unit) × (controlled server seven same same env options_init factors
        (num 1)
        (pos 7)
        2
        measured
        begins
      ≡ ok q)
    × (q.daq.vs.vs_cycle ≡ 2)
    × IsArchived server (pos 7) 2 q.daq q.daq.vs [] q.session
unfolding prepared
prepared_shot_example =
    prepared_shot server seven same same env options_init factors (num 1) (pos 7) 2 (num 1)
      (some two) [] prepared.1 (vs_init tt) started measured begins prepared.2 refl refl refl refl
      started-HasRows refl refl refl refl opened-IsOpen refl (omega arith, (omega arith, tt))
