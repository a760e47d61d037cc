-- ===== src/Tests/Waveform.antt =====
-- Waveforms on concrete input.
use daux4pcs2m.Base.{ℕ, zero, suc, List, [], ◌∷◌, ◌≡◌, refl, false, arith}
use daux4pcs2m.Base.Int.{pos}
use daux4pcs2m.Real.Rational.{rational, Rational, frac}
use daux4pcs2m.Memory.Result.{ok, err, out_of_bounds, double_free}
use daux4pcs2m.Memory.Buffer.{live, freed, free, write}
use daux4pcs2m.Vs.State.{Point, Wave, Config, Targets, config_init, targets_init}
use daux4pcs2m.Vs.Linear.{
  linear, Sampled, copy, extend_start, extend_end, find_start, trim_start, find_end, trim_end,
  sample_stage, sample_stages, reshape, resample,
}
use daux4pcs2m.Vs.Linear.Reads.{linear_past_end}
use daux4pcs2m.Vs.Linear.Ownership.{linear_frees}
use daux4pcs2m.Vs.Linear.Samples.{linear_samples, linear_overflows}
use daux4pcs2m.Vs.Init.{Grid, sampled, cc_interpolation_data}
use daux4pcs2m.Vs.Clean.{free_cc}
use daux4pcs2m.Vs.Clean.DoubleFree.{cc_interpolation_data-free_cc}

abbrev num : ℕ → Rational
num n = frac (pos n) 0

abbrev at : ℕ → ℕ → Point
at x y = record { x = num x; y = num y }

abbrev ramp : List Point
ramp = at 0 0 ∷ at 2 4 ∷ []

abbrev ramp_wave : Wave
ramp_wave = record { points = live ramp; len = 2 }

abbrev blank : ℕ → List Rational
blank zero = []
blank (suc n) = num 0 ∷ blank n

linear_past_end_example :
    linear 9 (pos 4) (num 1) ramp_wave (num 0) (num 3) (live (blank 4)) false ≡ err out_of_bounds
linear_past_end_example =
    linear_past_end 9 (pos 4) (num 1) ramp (at 0 0) (at 2 4) (num 0) (num 3) (live (blank 4)) false
      refl refl refl refl refl

abbrev cut_ramp : Sampled
cut_ramp = record {
  wave = record { points = freed; len = 2 };
  samples = live (frac (pos 128) 63 ∷ frac (pos 256) 63 ∷ num 0 ∷ []);
  count = pos 2;
}

cut_ramp_sampled :
    linear 9 (pos 1) (num 1) ramp_wave (num 1) (num 2) (live (blank 3)) false ≡ ok cut_ramp
unfolding linear resample reshape extend_start extend_end trim_start find_start trim_end find_end
    copy sample_stages sample_stage write
cut_ramp_sampled = refl

linear_frees_example :
    (cut_ramp.wave.points ≡ freed) × (free cut_ramp.wave.points ≡ err double_free)
linear_frees_example =
    linear_frees 9 (pos 1) (num 1) ramp (at 0 0) (at 2 4) (num 1) (num 2) (live (blank 3)) false
      cut_ramp refl refl refl refl refl cut_ramp_sampled

linear_samples_example :
    linear 3 (pos 2) (num 1) ramp_wave (num 0) (num 2) (live (blank 4)) false
    ≡ ok (record {
      wave = ramp_wave;
      samples = live (frac (pos 0) 3 ∷ frac (pos 8) 3 ∷ frac (pos 16) 3 ∷ num 0 ∷ []);
      count = pos 3;
    })
linear_samples_example =
    linear_samples (at 0 0) (at 2 4) 2 3 (num 1) false (blank 4) (omega arith)
      (refl, refl, (refl, refl, refl)) (pos 2) (num 0) (num 2) refl refl refl refl refl refl
      (omega arith)

linear_overflows_example :
    linear 3 (pos 2) (num 1) ramp_wave (num 0) (num 2) (live (blank 2)) false ≡ err out_of_bounds
linear_overflows_example =
    linear_overflows (at 0 0) (at 2 4) 2 3 (num 1) false (blank 2) (omega arith)
      (refl, refl, (refl, refl, refl)) (pos 2) (num 0) (num 2) refl refl refl refl refl refl refl

abbrev flat : Wave
flat = record { points = live (at 1 0 ∷ at 2 0 ∷ []); len = 2 }

abbrev cc_waves : Config
cc_waves = record config_init { ivs1 = ramp_wave; ivs2 = flat; vvs1 = flat; vvs2 = flat }

-- A cycle of 0.1 microseconds, and a shot of one: `linear` then skips most of the cycles, and the
-- arrays are long enough.
abbrev fine_grid : Grid
fine_grid = record { fuel = 30; samples = pos 10; interval = frac (pos 1) 9999999 }

abbrev shot_end : Rational
shot_end = frac (pos 1000001) 999999

cc_sampled :
    (out : Config × Targets) × (cc_interpolation_data fine_grid
        (num 1)
        shot_end
        cc_waves
        targets_init
      ≡ ok (out.0, out.1))
unfolding cc_interpolation_data sampled linear resample reshape extend_start extend_end trim_start
    find_start trim_end find_end copy sample_stages sample_stage write
cc_sampled = (_, refl)

cc_interpolation_data-free_cc_example : free_cc (cc_sampled.0.0, targets_init) ≡ err double_free
cc_interpolation_data-free_cc_example =
    cc_interpolation_data-free_cc fine_grid (num 1) shot_end cc_waves cc_sampled.0.0 targets_init
      cc_sampled.0.1 targets_init ramp (at 0 0) (at 2 4) refl refl refl refl refl refl cc_sampled.1
