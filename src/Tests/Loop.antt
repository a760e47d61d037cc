-- ===== src/Tests/Loop.antt =====
-- The main loop and the wait for the data on concrete input.
use daux4pcs2m.Base.{
  ℕ, ◌+◌, ◌*◌, ◌-◌, ◌≡◌, refl, List, [], ◌∷◌, Option, none, some, Bool, ◌&&◌, leb, if◌then◌else◌,
  arith, replicate, length-replicate, map,
}
use daux4pcs2m.Base.Int.{ℤ, pos}
use daux4pcs2m.Base.Text.{Text, codes, Scan}
use daux4pcs2m.Real.Rational.{rational, Rational}
use daux4pcs2m.Memory.Result.{ok, ◌>>=◌}
use daux4pcs2m.Memory.Buffer.{live, read, write}
use daux4pcs2m.Memory.Copy.{first, memset, paste}
use daux4pcs2m.Vs.Init.{Env}
use daux4pcs2m.Daq.{Acq, acq_init}
use daux4pcs2m.Daq.Words.{read_word, write_word}
use daux4pcs2m.Daq.Ident.{short_of}
use daux4pcs2m.Daux.Calib.{Hold, finished, comment, factor, is_skipped, after_last_space}
use daux4pcs2m.Daux.Shot.{cycles}
use daux4pcs2m.Daux.Shot.Wait.{acquire_all, acquire_all-race, Watches, Change, data_in}
use daux4pcs2m.Daux.Shot.Live.{live_cycles}
use daux4pcs2m.Daux.Main.{arm}
use daux4pcs2m.Daux.Main.Armed.{spix, armed_cycles}
use daux4pcs2m.Daux.Main.Loop.{Arrival, IsGood}
use daux4pcs2m.Tests.Serve.{
  server, env, only_acquire, unanswered, program, calib_file, num, first_digit,
}

abbrev is_digit : ℕ → Bool
is_digit c = leb b'0' c && leb c b'9'

-- The number at the front of a text, behind the digits read so far, with the rest of the text.
pub number_from : ℕ → Text → ℕ × Text
number_from n [] = (n, [])
number_from n (c ∷ s) =
    let more = number_from (n * 10 + (c - b'0')) s in if is_digit c then more else (n, c ∷ s)

abbrev decimal_number : Text → Option (ℤ × Text)
decimal_number [] = none
decimal_number (c ∷ s) =
    let (n, rest) = number_from 0 (c ∷ s) in if is_digit c then some (pos n, rest) else none

abbrev decimals : Scan Rational
decimals = record { scan_int = decimal_number; scan_float = first_digit }

abbrev pub listening : Env
listening = record env { scan = decimals }

abbrev pub arrival : Text → Arrival
arrival datagram = record {
  datagram = some datagram;
  zfile = none;
  calib_file = some calib_file;
  device = λ k. replicate 160 (pos k);
}

file-Hold : Hold decimals calib_file (num 55 ∷ [])
unfolding is_skipped after_last_space
file-Hold = comment refl (factor refl refl refl finished)

pub first-IsGood : IsGood server listening (arrival (codes "1234,5000000"))
unfolding number_from
first-IsGood = record {
  order = record { shot = pos 1234; total_time = pos 5000000 };
  bytes = codes "1234,5000000";
  arrived = refl;
  message = record {
    short = omega arith;
    no_end = refl;
    time_text = codes "5000000";
    reads_shot = refl;
    rest = [];
    reads_time = refl;
  };
  servable = record {
    time = 5000000;
    total = refl;
    short = omega arith;
    printed = omega arith;
    lines = calib_file;
    factors = num 55 ∷ [];
    file = refl;
    hold = file-Hold;
    few = omega arith;
    full = λ k. omega (arith, length-replicate 160 (pos k));
  };
}

-- The memory of the device with the sample `k`.
abbrev sample : ℕ → List ℕ
sample k = replicate 160 k

sample-latch :
    (read_word (live (sample 1)) 0 79 ≡ ok 65537) × (read_word (live (sample 2)) 0 79 ≡ ok 131074)
unfolding read_word read
sample-latch = (refl, refl)

acquire_all-race_example :
    (ai : List ℕ) × (first 160 (sample 2) ≡ ok ai)
    × (acquire_all 79 2 0 (sample 1 ∷ sample 2 ∷ sample 2 ∷ sample 2 ∷ [])
        ≡ (acquire_all 79 0 131074 [] >>= λ rest. ok (ai ∷ ai ∷ rest)))
acquire_all-race_example =
    acquire_all-race 79 0 0 65537 131074 (sample 1) (sample 2) [] sample-latch.0 (λ e. omega arith)
      sample-latch.1 (λ e. omega arith) (omega arith)

abbrev device : Acq
device = record acq_init { host_buffer = live (sample 9) }

armed : (now : List ℕ) × (arm device ≡ ok (record device { host_buffer = live now }))
unfolding arm memset write_word write paste
armed = (_, refl)

two_samples : Change (spix device) 0xdeadbeef (sample 1 ∷ sample 2 ∷ [])
unfolding read_word read
two_samples =
    (65537, refl, λ e. omega arith, omega arith, (131074, refl, λ e. omega arith, omega arith, tt))

-- A look before the first sample, two at it, three at the second one.
abbrev looks : List (List ℕ)
looks = armed.0 ∷ sample 1 ∷ sample 1 ∷ sample 2 ∷ sample 2 ∷ sample 2 ∷ []

armed_cycles_example :
    (ais : List (List ℕ)) × (data_in (spix device) (sample 1 ∷ sample 2 ∷ []) ≡ ok ais)
    × (live_cycles
          (spix device)
          unanswered
          only_acquire
          (replicate 96 (num 1))
          (num 1)
          2
          2
          0
          0xdeadbeef
          looks
          program.daq
        ≡ cycles unanswered only_acquire
            (replicate 96 (num 1))
            (num 1)
            2
            0
            (map (map short_of) ais)
            program.daq)
armed_cycles_example =
    armed_cycles unanswered only_acquire (replicate 96 (num 1)) (num 1) 2 device 160 program.daq
      refl (omega arith) (omega arith) armed.1
      (Watches.idle (Watches.fresh (Watches.fresh (Watches.idle Watches.over)))) two_samples
