-- ===== src/Daq/Scripts.antt =====
-- The scripts that daq_helper.h runs on the device, as built without DO. What `system` returns is only
-- printed.
use daux4pcs2m.Base.{ℕ, ◌+◌, ◌≤◌, ◌<◌, ◌∷◌, ◌++◌, ◌≡◌, refl, arith, length, length-append}
use daux4pcs2m.Base.Int.{ℤ}
use daux4pcs2m.Base.Text.{Text, codes}
use daux4pcs2m.Memory.Result.{Result, ok, ◌>>=◌}
use daux4pcs2m.Memory.Print.{print_to, print_to_fits}
use daux4pcs2m.Daq.{Acq}

abbrev pub llchost : Text
llchost = codes "acq2106_110"

-- The size of `scriptcmd`.
abbrev pub scriptcmd_size : ℕ
scriptcmd_size = 128

-- The text for `system`, with the command of the script; `decimal` prints %d.
abbrev pub script : (ℤ → Text) → Text → ℤ → Text
script decimal what cycle_time =
    codes "REMIP="
    ++ llchost
    ++ codes " EXTCLKDIV="
    ++ decimal cycle_time
    ++ codes " ./llc-test-harness-AI1234-AO5-DO6 "
    ++ what
    ++ codes " > /dev/null"

abbrev pub init_script : (ℤ → Text) → ℤ → Text
init_script decimal cycle_time = script decimal (codes "init_2106") cycle_time

abbrev pub start_script : (ℤ → Text) → ℤ → Text
start_script decimal cycle_time = script decimal (codes "start_stream") cycle_time

unfoldable pub run_script : Text → Acq → Result Acq
run_script text a = do
  cmd ← print_to scriptcmd_size text
  ok (record a { scripts = cmd ∷ a.scripts })

unfoldable pub acq2106_start : (ℤ → Text) → ℤ → Acq → Result Acq
acq2106_start decimal cycle_time a = run_script (start_script decimal cycle_time) a

length-around :
    (front x middle y back : Text)
    → length (front ++ x ++ middle ++ y ++ back)
      ≡ length front + length x + length middle + length y + length back
length-around front x middle y back = omega (
  arith,
  length-append front x,
  length-append (front ++ x) middle,
  length-append (front ++ x ++ middle) y,
  length-append (front ++ x ++ middle ++ y) back,
)

length-script :
    (decimal : ℤ → Text) (what : Text) (cycle_time : ℤ)
    → length what ≤ 12
    → length (decimal cycle_time) ≤ 11
    → length (script decimal what cycle_time) < scriptcmd_size
length-script decimal what cycle_time small printed = omega (
  arith,
  length-around (codes "REMIP=" ++ llchost ++ codes " EXTCLKDIV=") (decimal cycle_time)
      (codes " ./llc-test-harness-AI1234-AO5-DO6 ") what (codes " > /dev/null"),
)

run_script_fits :
    (text : Text) (a : Acq)
    → length text < scriptcmd_size
    → run_script text a ≡ ok (record a { scripts = text ∷ a.scripts })
unfolding run_script
run_script_fits text a short = rw (print_to_fits scriptcmd_size text short) refl

module _ (decimal : ℤ → Text) (cycle_time : ℤ) (a : Acq)
    (printed : length (decimal cycle_time) ≤ 11) where
  -- The text of each script fits in its array, for a number of at most 11 characters.
  pub init_script_fits :
      run_script (init_script decimal cycle_time) a
      ≡ ok (record a { scripts = init_script decimal cycle_time ∷ a.scripts })
  init_script_fits =
      run_script_fits (init_script decimal cycle_time) a
        (length-script decimal (codes "init_2106") cycle_time (omega arith) printed)

  pub start_script_fits :
      acq2106_start decimal cycle_time a
      ≡ ok (record a { scripts = start_script decimal cycle_time ∷ a.scripts })
  unfolding acq2106_start
  start_script_fits =
      run_script_fits (start_script decimal cycle_time) a
        (length-script decimal (codes "start_stream") cycle_time (omega arith) printed)
