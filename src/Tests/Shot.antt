-- ===== src/Tests/Shot.antt =====
-- Cycles and shots of the control on concrete input.
use daux4pcs2m.Base.{ℕ, zero, suc, List, [], ◌∷◌, ◌≡◌, refl, true, false, arith, replicate, ap, sym}
use daux4pcs2m.Base.Int.{ℤ, pos}
use daux4pcs2m.Real.Rational.{rational, Rational, frac}
use daux4pcs2m.Memory.Result.{ok, ok-injective}
use daux4pcs2m.Memory.Buffer.{Buffer, live, null, read, write}
use daux4pcs2m.Pid.{Scratch}
use daux4pcs2m.Vs.State.{Vs, Config, Targets, Trace, vs_init, config_init}
use daux4pcs2m.Vs.Cycle.{Calc, fastz, fastz_run, stamp, coil_current, limited, command, nominal}
use daux4pcs2m.Vs.Cycle.Record.{fastz_records, fastz_run_logs, IsRecorded}
use daux4pcs2m.Vs.Cycle.Arrays.{HasRows}
use daux4pcs2m.Vs.Cycle.Ready.{fastz_run-IsReady, IsReady}

abbrev num : ℕ → Rational
num n = frac (pos n) 0

-- Answers every command with the number 7.
abbrev pub seven : Calc Unit
seven s v o i = (record { status = 1; cmd_val = 7 }, i)

abbrev pair : Buffer Rational
pair = live (num 0 ∷ num 0 ∷ [])

abbrev pub factors : List Rational
factors = replicate 96 (num 1)

abbrev channels : List ℤ
channels = replicate 96 (pos 2)

abbrev arrays : Trace
arrays = record {
  timebase = pair;
  zpos = pair;
  error = pair;
  derror = pair;
  pvector = pair;
  precmd = pair;
  fincmd = live (0 ∷ 0 ∷ []);
  fincmd_bit = live (0 ∷ 0 ∷ []);
}

abbrev pub some_scratch : Scratch
some_scratch = record { tlast = num 3; ilast = num 4; dlast = num 5; vlast = num 6; elast = num 7 }

abbrev quiet : Vs Unit
quiet = record (vs_init tt) { trace = arrays; scratch = live (some_scratch ∷ []) }

abbrev two_cycles : List (List ℤ × Rational)
two_cycles = (channels, num 1) ∷ (channels, num 2) ∷ []

one_done : (t : Vs Unit) × (fastz seven false factors channels (num 1) quiet ≡ ok t)
unfolding fastz stamp coil_current limited command write read nominal
one_done = (_, refl)

both_done : (t : Vs Unit) × (fastz_run seven false factors two_cycles quiet ≡ ok t)
unfolding fastz_run fastz stamp coil_current limited command write read nominal
both_done = (_, refl)

fastz_records_example : IsRecorded seven (num 1) quiet one_done.0
fastz_records_example =
    fastz_records seven false factors channels (num 1) quiet one_done.0 one_done.1

fastz_run_logs_example : read both_done.0.trace.timebase 1 ≡ ok (num 2)
fastz_run_logs_example =
    fastz_run_logs seven false factors two_cycles 1 channels (num 2) quiet both_done.0 both_done.1
      refl

-- Both algorithms in normal mode, for two cycles.
abbrev lm_targets : Targets
lm_targets = record {
  ccivs1 = pair;
  ccivs2 = null;
  ccvvs1 = pair;
  ccvvs2 = null;
  zx1ref = pair;
  zx1gp = pair;
  zx1gd = pair;
  zx1gi = pair;
  zx1tp = pair;
  zx1td = pair;
  zx1ti = pair;
  szdt = pair;
  sztc = pair;
  which_e = pair;
  which_m = pair;
  ipref = null;
  ipeoo = null;
  ipetl = null;
  dummy_zx1 = null;
  dummy_ip = null;
  dummy_ivs1 = null;
}

abbrev lm_config : Config
lm_config = record config_init {
  limit_et = num 9;
  cc_et = num 9;
  vs1mode = pos 2;
  mmatrix = live (num 1 ∷ []);
  ematrix = live (live (replicate 93 (num 1)) ∷ []);
}

abbrev pub busy : Vs Unit
busy = record quiet {
  vs_samples = pos 2;
  algmask = record { cc = true; lm = true; ip = true; fd = false; sm = false };
  config = lm_config;
  targets = lm_targets;
}

zero_read : (i : ℕ) (v : Rational) → read pair i ≡ ok v → v ≡ num 0
unfolding read
zero_read zero v e = sym (ok-injective e)
zero_read (suc zero) v e = sym (ok-injective e)
zero_read (suc (suc i)) v e = cc

zero_row : (v : Rational) → v ≡ num 0 → rational.to_int v ≡ pos 0
zero_row v e = ap rational.to_int e

busy-HasRows : HasRows lm_config lm_targets
unfolding read
busy-HasRows = record {
  e_row = λ i v e. (0, zero_row v (zero_read i v e), live (replicate 93 (num 1)), refl, refl);
  m_row = λ i v e. (0, zero_row v (zero_read i v e), num 1, refl);
}

pub busy-IsReady : IsReady 2 busy
busy-IsReady = record {
  trace = record {
    timebase = refl;
    zpos = refl;
    error = refl;
    derror = refl;
    pvector = refl;
    precmd = refl;
    fincmd = refl;
    fincmd_bit = refl;
  };
  voltage = refl;
  current = refl;
  lm = record {
    zx1ref = refl;
    gp = refl;
    gd = refl;
    gi = refl;
    tp = refl;
    td = refl;
    ti = refl;
    sztc = refl;
    szdt = refl;
    which_e = refl;
    which_m = refl;
  };
  rows = busy-HasRows;
  scratch = refl;
}

fastz_run-IsReady_example :
    (t : Vs Unit) × (fastz_run seven false factors two_cycles busy ≡ ok t)
    × IsReady 2 t
    × (t.vs_cycle ≡ 2)
fastz_run-IsReady_example =
    fastz_run-IsReady 2 seven factors two_cycles busy busy-IsReady (omega arith) refl
      (omega arith, (omega arith, tt))
