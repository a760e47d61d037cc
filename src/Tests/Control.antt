-- ===== src/Tests/Control.antt =====
-- The filter and the PID step on concrete input.
use daux4pcs2m.Base.{ℕ, ◌<◌, arith, List, [], ◌∷◌, ◌≡◌, refl}
use daux4pcs2m.Base.Int.{pos}
use daux4pcs2m.Real.Rational.{rational, rational-IsNormal, Rational, frac}
use daux4pcs2m.Filter.{Lpf, lpf_init, filter_all}
use daux4pcs2m.Filter.Laws.{filter_all_pass}
use daux4pcs2m.Pid.{Scratch, Gains, Elements, pid_element, pidv4}
use daux4pcs2m.Pid.Arrays.{HasElements, IsStepped, pidv4-IsStepped}
use daux4pcs2m.Memory.Result.{Ends}
use daux4pcs2m.Memory.Buffer.{live}
use daux4pcs2m.Pid.Laws.{pid_element_forgets, pid_element-IsClear, IsClear}

abbrev num : ℕ → Rational
num n = frac (pos n) 0

abbrev three_calls : List (Rational × Rational × Rational)
three_calls = (num 3, num 5, num 1) ∷ (num 4, num 5, num 2) ∷ (num 2, num 0, num 2) ∷ []

filter_all_pass_example :
    ((filter_all three_calls lpf_init).0 ≡ num 3 ∷ num 4 ∷ num 2 ∷ [])
    × ((filter_all three_calls lpf_init).1.init_cycle ≡ 1)
filter_all_pass_example = filter_all_pass three_calls lpf_init rational-IsNormal refl

abbrev started : Lpf
started = record { init_cycle = 0; lbbtime = num 0; vlast = num 3; elast = num 3; tlast = num 1 }

abbrev some_gains : Gains
some_gains = record { gp = num 2; gd = num 1; gi = num 3; taup = num 1; taud = num 1; taui = num 1 }

abbrev memory : Scratch
memory = record { tlast = num 1; ilast = num 0; dlast = num 0; vlast = num 4; elast = num 4 }

abbrev other_memory : Scratch
other_memory = record { tlast = num 7; ilast = num 9; dlast = num 3; vlast = num 5; elast = num 6 }

pid_element_forgets_example :
    pid_element (num 2) some_gains 0 1 (num 3) memory
    ≡ pid_element (num 2) some_gains 0 1 (num 3) other_memory
pid_element_forgets_example =
    pid_element_forgets (num 2) some_gains 1 (num 3) memory other_memory rational-IsNormal

memory-IsClear : IsClear memory
memory-IsClear = record { dlast_clear = λ h. refl; ilast_clear = λ h. refl }

pid_element-IsClear_example : IsClear (pid_element (num 2) some_gains 1 1 (num 3) memory).2
pid_element-IsClear_example =
    pid_element-IsClear (num 2) some_gains 1 1 (num 3) memory memory-IsClear

abbrev two_elements : Elements
two_elements = record {
  calculate = live (1 ∷ 0 ∷ []);
  use_gi = live (1 ∷ 3 ∷ []);
  pvector = live (num 0 ∷ num 0 ∷ []);
  shape = live (num 0 ∷ num 0 ∷ num 0 ∷ num 0 ∷ num 0 ∷ num 0 ∷ []);
  error = live (num 3 ∷ num 5 ∷ []);
  scratch = live (memory ∷ other_memory ∷ []);
}

pidv4-IsStepped_example :
    Ends
      (λ z. HasElements 2 z × ((i : ℕ) → i < 2 → IsStepped (num 2) some_gains two_elements z i))
      (pidv4 2 (num 2) some_gains two_elements)
pidv4-IsStepped_example =
    pidv4-IsStepped (num 2) some_gains 2 2 two_elements
      (record {
        calculate = refl;
        use_gi = refl;
        pvector = refl;
        shape = refl;
        error = refl;
        scratch = refl;
      })
      (omega arith)
