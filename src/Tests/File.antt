-- ===== src/Tests/File.antt =====
-- Reading a ztarget file on concrete input.
use daux4pcs2m.Base.{
  ℕ, ◌-◌, [], ◌∷◌, Option, none, some, ◌≡◌, ◌≢◌, refl, true, false, arith, if◌then◌else◌, ◌==◌,
}
use daux4pcs2m.Base.Int.{ℤ, pos}
use daux4pcs2m.Base.Text.{Text, codes, same_text, Stream, fgets, Scan}
use daux4pcs2m.Real.Rational.{rational, Rational, frac}
use daux4pcs2m.Memory.Result.{ok, err, unfinished}
use daux4pcs2m.Memory.Buffer.{live, null}
use daux4pcs2m.Vs.State.{Point, Wave, AlgMask, Config, config_init}
use daux4pcs2m.Vs.Ztarget.{
  Input, ◌>>=◌, pure, next_line, set_pair, next_round, lift, read_points, get_wave, read_z_fd,
  read_section, read_sections, read_ztarget,
}
use daux4pcs2m.Vs.Ztarget.Ends.{read_ztarget_ends}
use daux4pcs2m.Vs.Ztarget.Waves.{get_wave_lem, before}
use daux4pcs2m.Vs.Ztarget.Mask.{read_ztarget-KeepsBits, KeepsBits}

-- Numbers of one digit, after one space at most.
abbrev pub unspaced : Text → Text
unspaced [] = []
unspaced (c ∷ s) = if c == 32 then s else c ∷ s

abbrev pub first_digit : Text → Option (ℤ × Text)
first_digit [] = none
first_digit (c ∷ s) = some (pos (c - 48), s)

abbrev pub first_float : Text → Option (Rational × Text)
first_float [] = none
first_float (c ∷ s) = some (frac (pos (c - 48)) 0, s)

abbrev pub digits : Scan Rational
digits = record {
  scan_int = λ s. first_digit (unspaced s);
  scan_float = λ s. first_float (unspaced s);
}

abbrev pub junk : Point
junk = record { x = frac (pos 77) 0; y = frac (pos 88) 0 }

abbrev at : ℕ → ℕ → Point
at x y = record { x = frac (pos x) 0; y = frac (pos y) 0 }

abbrev fault_file : Stream
fault_file = record {
  rest = codes "faultdetection\n" ∷ codes "1\n" ∷ codes "0,5\n" ∷ codes "1\n" ∷ codes "2,6\n" ∷ [];
  eof = false;
  cut_short = false;
}

read_ztarget_ends_example :
    read_ztarget digits junk 7
      (some fault_file)
      []
      (record { cc = false; lm = false; ip = false; fd = false; sm = false }, config_init)
    ≢ err unfinished
read_ztarget_ends_example =
    read_ztarget_ends digits junk 7 fault_file []
      (record { cc = false; lm = false; ip = false; fd = false; sm = false }, config_init)
      (omega arith)

abbrev blank_wave : Wave
blank_wave = record { points = null; len = 0 }

first_shown :
    (x y : Rational)
    → set_pair digits junk (x, y) (codes "0,5\n") ≡ (frac (pos 0) 0, frac (pos 5) 0)
unfolding set_pair
first_shown x y = refl

second_shown :
    (x y : Rational)
    → set_pair digits junk (x, y) (codes "2,6\n") ≡ (frac (pos 2) 0, frac (pos 6) 0)
unfolding set_pair
second_shown x y = refl

get_wave_lem_example :
    (z : Text) × (get_wave digits junk blank_wave (record {
      zfbuf = [];
      stream =
          before digits junk fault_file
            (codes "end\n")
            []
            (codes "2\n" ∷ codes "0,5\n" ∷ codes "2,6\n" ∷ []);
    })
      ≡ ok (
        record { points = live (at 0 5 ∷ at 2 6 ∷ []); len = 2 },
        record { zfbuf = z; stream = before digits junk fault_file (codes "end\n") [] [] },
      ))
get_wave_lem_example =
    get_wave_lem digits junk fault_file (codes "end\n") [] blank_wave [] (codes "2\n") (codes "\n")
      2 (codes "0,5\n" ∷ codes "2,6\n" ∷ []) (at 0 5 ∷ at 2 6 ∷ []) refl (omega arith) refl
      (first_shown, (second_shown, tt))

abbrev lm_left : AlgMask
lm_left = record { cc = false; lm = true; ip = false; fd = false; sm = false }

abbrev lm_and_fd : AlgMask
lm_and_fd = record { cc = false; lm = true; ip = false; fd = true; sm = false }

abbrev read_fault : Config
read_fault = record config_init {
  ipeoo = record { points = live (at 0 5 ∷ []); len = 1 };
  ipetl = record { points = live (at 2 6 ∷ []); len = 1 };
}

-- The last line is delivered a second time, since the end of the file shows only after it.
abbrev read_input : Input
read_input = record {
  zfbuf = codes "2,6\n";
  stream = record { rest = []; eof = true; cut_short = false };
}

fault_read :
    read_ztarget digits junk 7 (some fault_file) [] (lm_left, config_init)
    ≡ ok ((lm_and_fd, read_fault), read_input)
unfolding read_ztarget read_sections read_section read_z_fd get_wave next_round lift read_points
    set_pair next_line fgets same_text ◌>>=◌ pure
fault_read = refl

read_ztarget-KeepsBits_example : KeepsBits lm_left lm_and_fd
read_ztarget-KeepsBits_example =
    read_ztarget-KeepsBits digits junk 7 fault_file [] lm_left lm_and_fd config_init read_fault
      read_input fault_read
