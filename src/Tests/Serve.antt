-- ===== src/Tests/Serve.antt =====
-- Shots that only acquire, on concrete input.
use daux4pcs2m.Base.{
  ℕ, zero, suc, ◌+◌, ◌*◌, ◌/◌, ◌%◌, ◌^◌, ◌≤◌, ◌<◌, List, [], ◌∷◌, Option, none, some, ◌≡◌, refl,
  arith, ltb, true, replicate, if◌then◌else◌, length, length-replicate,
}
use daux4pcs2m.Base.Int.{ℤ, pos, negsuc}
use daux4pcs2m.Base.Text.{Text, codes, Scan}
use daux4pcs2m.Real.Rational.{rational, Rational, frac}
use daux4pcs2m.Memory.Result.{ok}
use daux4pcs2m.Memory.Buffer.{null, live}
use daux4pcs2m.Vs.State.{vs_init}
use daux4pcs2m.Vs.Init.{Env}
use daux4pcs2m.Vs.Cycle.{Calc}
use daux4pcs2m.Mds.{MdsLib}
use daux4pcs2m.Daq.{acq_init}
use daux4pcs2m.Tests.Reflective.{board}
use daux4pcs2m.Daux.Options.{Options, options_init}
use daux4pcs2m.Daux.Calib.{Hold, finished, comment, factor, is_skipped, after_last_space}
use daux4pcs2m.Daux.Count.{sample_count, sample_count_fits}
use daux4pcs2m.Daux.Main.{Input, Program}
use daux4pcs2m.Daux.Main.Waiting.{Waits, IsServable}

abbrev pub num : ℕ → Rational
num n = frac (pos n) 0

-- The digits of a number, in front of a text, with the digits left.
abbrev digits : ℕ → ℕ → Text → Text
digits zero n after_it = after_it
digits (suc left) n after_it =
    let more = digits left (n / 10) ((b'0' + n % 10) ∷ after_it) in
    if ltb n 10 then (b'0' + n) ∷ after_it else more

abbrev pub decimal : ℤ → Text
decimal (pos n) = digits 10 n []
decimal (negsuc n) = b'-' ∷ digits 10 (suc n) []

-- A server that answers always, and keeps the texts of the calls, the last one first.
abbrev pub server : MdsLib
server = record {
  Session = List Text;
  connect = λ host s. (pos 3, host ∷ s);
  value = λ expression s. (1, pos 0, expression ∷ s);
  open_shot = λ tree shot s. (1, tree ∷ s);
  close_shot = λ tree shot s. (1, tree ∷ s);
  put = λ node values times s. (1, node ∷ s);
  decimal = decimal;
}

sample_count_fits_example :
    (n : ℕ) × (sample_count (pos 5000000) (pos 50) ≡ ok (pos n))
    × (n < 2 ^ 31)
    × (n * 50 ≤ 14000000 + 5000000)
sample_count_fits_example = sample_count_fits 5000000 50 (omega arith) (omega arith) (omega arith)

abbrev pub first_digit : Text → Option (Rational × Text)
first_digit [] = none
first_digit (c ∷ s) = some (num c, s)

-- A number is one byte here.
abbrev bytes : Scan Rational
bytes = record { scan_int = λ s. none; scan_float = first_digit }

abbrev pub env : Env
env = record {
  scan = bytes;
  garbage = record { x = num 7; y = num 7 };
  garbage_scratch = record {
    tlast = num 7;
    ilast = num 7;
    dlast = num 7;
    vlast = num 7;
    elast = num 7;
  };
  read_fuel = 0;
  sample_fuel = 0;
}

abbrev pub only_acquire : Options
only_acquire = record options_init { acqonly = true }

abbrev pub unanswered : Calc Unit
unanswered s v o i = (o, i)

abbrev pub same : Unit {0} → Unit {0}
same i = i

abbrev pub calib_file : List Text
calib_file = codes "! name factor\n" ∷ codes "IVS1 7\n" ∷ []

pub calib_file-Hold : Hold bytes calib_file (num 55 ∷ [])
unfolding is_skipped after_last_space
calib_file-Hold = comment refl (factor refl refl refl finished)

-- The cycle lasts 50 microseconds.
abbrev pub program : Program server board Unit
program = record {
  acq = record acq_init { clk_div = pos 50; host_buffer = live (replicate 160 1) };
  daq = record {
    timebase = null;
    signal_data = null;
    baseline = replicate 96 (num 0);
    vs = vs_init tt;
    link = record { result = 0; board = none };
  };
  calib = live (replicate 96 (num 0));
  zfbuf = [];
  session = [];
  sent = [];
}

abbrev pub program-Waits : Waits server 50 160 (vs_init tt) program
program-Waits = record {
  cycle_time = refl;
  some_time = omega arith;
  slow = omega arith;
  host = refl;
  sample = omega arith;
  latch = omega arith;
  calib = refl;
  baseline = refl;
  vs = refl;
}

abbrev message : ℤ → ℕ → Input
message shot time = record {
  shot = shot;
  total_time = pos time;
  zfile = none;
  calib_file = some calib_file;
  device = λ k. replicate 160 (pos k);
}

abbrev message-IsServable :
    (shot : ℤ) (time : ℕ)
    → time < 2134000000
    → length (decimal shot) ≤ 11
    → IsServable server env (message shot time)
message-IsServable shot time short printed = record {
  time = time;
  total = refl;
  short = short;
  printed = printed;
  lines = calib_file;
  factors = num 55 ∷ [];
  file = refl;
  hold = calib_file-Hold;
  few = omega arith;
  full = λ k. omega (arith, length-replicate 160 (pos k));
}
