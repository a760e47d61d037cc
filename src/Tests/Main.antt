-- ===== src/Tests/Main.antt =====
-- The main program on concrete input.
use daux4pcs2m.Base.{
  ◌≢◌, ◌⊎◌, ◌+◌, ℕ, ◌*◌, List, [], ◌∷◌, Option, none, some, ◌≡◌, refl, true, arith, replicate,
}
use daux4pcs2m.Base.Int.{ℤ, pos}
use daux4pcs2m.Base.Text.{Text, codes, Scan}
use daux4pcs2m.Real.Rational.{rational, Rational, frac}
use daux4pcs2m.Memory.Result.{ok}
use daux4pcs2m.Memory.Buffer.{read, live, HasSize-allocate, allocate}
use daux4pcs2m.Vs.State.{vs_init}
use daux4pcs2m.Vs.Cycle.{Calc}
use daux4pcs2m.Memory.Copy.{first}
use daux4pcs2m.Rfm.Helper.{offset_daq, bytes_of_shorts}
use daux4pcs2m.Daux.Shot.{chns}
use daux4pcs2m.Daux.Shot.Transmit.{cycles-read_back}
use daux4pcs2m.Tests.Reflective.{Kept, board, board-IsReflective}
use daux4pcs2m.Daux.Options.{Options, options_init}
use daux4pcs2m.Daux.Calib.{
  readcalib, readcalib_lem, Hold, finished, comment, factor, is_skipped, after_last_space,
}
use daux4pcs2m.Daux.Shot.{Daq, cycles, time_of}
use daux4pcs2m.Daux.Shot.Table.{cycles-entry_lem}
use daux4pcs2m.Daux.Shot.Columns.{entry}
use daux4pcs2m.Daux.Shot.Acquire.{IsOpen}

abbrev first_digit : Text → Option (ℕ × Text)
first_digit [] = none
first_digit (c ∷ s) = some (c, s)

-- A number is one byte here.
abbrev bytes : Scan ℕ
bytes = record { scan_int = λ s. none; scan_float = first_digit }

abbrev calib_file : List Text
calib_file = codes "! name factor\n" ∷ codes "IVS1 7\n" ∷ codes "\n" ∷ codes "IVS2 8\n" ∷ []

calib_file-Hold : Hold bytes calib_file (55 ∷ 56 ∷ [])
unfolding is_skipped after_last_space
calib_file-Hold =
    comment refl (factor refl refl refl (comment refl (factor refl refl refl finished)))

readcalib_lem_example :
    readcalib bytes (some calib_file) (live (0 ∷ 0 ∷ 9 ∷ [])) ≡ ok (live (55 ∷ 56 ∷ 9 ∷ []), 2)
readcalib_lem_example =
    readcalib_lem bytes calib_file (55 ∷ 56 ∷ []) (0 ∷ 0 ∷ 9 ∷ []) calib_file-Hold (omega arith)

abbrev num : ℕ → Rational
num n = frac (pos n) 0

abbrev only_acquire : Options
only_acquire = record options_init { acqonly = true }

abbrev unanswered : Calc Unit
unanswered s v o i = (o, i)

abbrev opened : Daq board Unit
opened = record {
  timebase = live (num 0 ∷ num 0 ∷ []);
  signal_data = allocate (pos (96 * 2)) (num 0);
  baseline = replicate 96 (num 0);
  vs = vs_init tt;
  link = record { result = 0; board = none };
}

opened-IsOpen : IsOpen 2 (vs_init tt) opened
opened-IsOpen = record {
  timebase = refl;
  signal_data = HasSize-allocate (96 * 2) (num 0);
  baseline = refl;
  vs = refl;
}

abbrev sampled_twice : List (List ℤ)
sampled_twice = replicate 96 (pos 1) ∷ replicate 96 (pos 2) ∷ []

-- Channel 5, in the second cycle.
cycles-entry_lem_example :
    (d : Daq board Unit) × (v : Rational) × (cycles unanswered only_acquire
        (replicate 96 (num 1))
        (num 1)
        2
        0
        sampled_twice
        opened
      ≡ ok d)
    × (entry (replicate 96 (num 1)) 5 0 sampled_twice 1 (replicate 96 (num 0)) ≡ ok v)
    × (read d.signal_data (5 * 2 + 1) ≡ ok v)
    × (read d.timebase 1 ≡ ok (time_of (num 1) 1))
cycles-entry_lem_example =
    cycles-entry_lem unanswered only_acquire (replicate 96 (num 1)) (num 1) 2 sampled_twice
      (vs_init tt) opened 5 1 refl refl refl opened-IsOpen (omega arith)
      (omega arith, (omega arith, tt)) (omega arith) (omega arith)

cycles-read_back_example :
    (d : Daq board Unit) × (sent : List ℤ) × (cycles unanswered only_acquire
        (replicate 96 (num 1))
        (num 1)
        2
        0
        sampled_twice
        opened
      ≡ ok d)
    × (first chns (replicate 96 (pos 2)) ≡ ok sent)
    × ((d.link.result ≢ 0)
        ⊎ ((b : Kept) × (board.read offset_daq (chns * 2) d.link.board
              ≡ (0, bytes_of_shorts sent, b))))
cycles-read_back_example =
    cycles-read_back unanswered only_acquire (replicate 96 (num 1)) (num 1) 2 board-IsReflective
      (replicate 96 (pos 1) ∷ []) (replicate 96 (pos 2)) (vs_init tt) opened refl refl opened-IsOpen
      (omega arith) (omega arith, (omega arith, tt))
