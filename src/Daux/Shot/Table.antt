-- ===== src/Daux/Shot/Table.antt =====
-- The archive of a shot in daux.c as a table of channels and cycles.
use daux4pcs2m.Base.{
  ℕ, zero, suc, ◌+◌, ◌*◌, ◌≤◌, ◌<◌, true, List, [], ◌∷◌, ◌≡◌, arith, length, ap, sym, ◌∙◌,
}
use daux4pcs2m.Base.Int.{ℤ}
use daux4pcs2m.Real.{Ieee, Float, Dbl}
use daux4pcs2m.Memory.Result.{Result, ok, ◌>>=◌, >>=-eq-ok, ok-injective}
use daux4pcs2m.Memory.Buffer.{read, write, read-write, read-write_ne, read_within}
use daux4pcs2m.Rfm.{Rfm2g}
use daux4pcs2m.Vs.State.{Vs}
use daux4pcs2m.Vs.Cycle.{Calc}
use daux4pcs2m.Daux.Options.{Options}
use daux4pcs2m.Daux.Shot.{Daq, save_channels, process, run, cycles, chns, time_of}
use daux4pcs2m.Daux.Shot.Acquire.{IsOpen, HaveData, cycles-IsOpen}
use native.Mathlib.Nat.{suc-mul, mul-le-mul_right}
-- Two columns of a table have no element in common.
use daux4pcs2m.Daux.Shot.Columns.{
  columns_apart, collected, entry, save_channels-kept, save_channels-sample,
}

module _ ⦃m : Ieee⦄ {api : Rfm2g} {I : Type 0} (calc : Calc I) (o : Options) (calib : List Float)
    (tick : Dbl) (n : ℕ) where
  run-parts :
      (sss : ℕ) (raw : List ℤ) (d d1 : Daq api I)
      → o.saveall ≡ true
      → run calc o calib tick n sss raw d ≡ ok d1
      → (d1.timebase ≡ d.timebase)
        × (d1.baseline ≡ collected calib sss raw d.baseline)
        × (save_channels chns 0 0 n sss calib raw (collected calib sss raw d.baseline) d.signal_data
            ≡ ok d1.signal_data)
  unfolding run process
  run-parts sss raw d d1 saving e = grind arith

  -- The first cycle of several, and those behind it.
  cycles-step :
      (sss : ℕ) (raw : List ℤ) (raws : List (List ℤ)) (d d' : Daq api I)
      → o.saveall ≡ true
      → cycles calc o calib tick n sss (raw ∷ raws) d ≡ ok d'
      → (d1 : Daq api I) × (d1.baseline ≡ collected calib sss raw d.baseline)
        × (save_channels chns 0
              (0 * n)
              n
              sss
              calib
              raw
              (collected calib sss raw d.baseline)
              d.signal_data
            ≡ ok d1.signal_data)
        × (write d.timebase sss (time_of tick sss) ≡ ok d1.timebase)
        × (cycles calc o calib tick n (sss + 1) raws d1 ≡ ok d')
  unfolding cycles
  cycles-step sss raw raws d d' saving e =
      let end_of_round : Daq api I → Result (Daq api I) = λ d1.
        write d1.timebase sss (time_of tick sss) >>= λ t.
        cycles calc o calib tick n (sss + 1) raws (record d1 { timebase = t }) in
      let (d1, er, e1) = >>=-eq-ok (run calc o calib tick n sss raw d) end_of_round e in
      let (t, ew, later) =
        >>=-eq-ok (write d1.timebase sss (time_of tick sss))
          (λ t. cycles calc o calib tick n (sss + 1) raws (record d1 { timebase = t })) e1 in
      let (same, lines, saved) = run-parts sss raw d d1 saving er in
      let top : 0 * n ≡ 0 = omega arith in
      (record d1 { timebase = t }, lines, rw top saved, rw same at ew, later)

  -- Cycles leave the columns of the ones before.
  cycles-kept :
      (sss k c : ℕ) (raws : List (List ℤ)) (d d' : Daq api I)
      → o.saveall ≡ true
      → cycles calc o calib tick n sss raws d ≡ ok d'
      → sss + length raws ≤ n
      → c < sss
      → (read d'.signal_data (k * n + c) ≡ read d.signal_data (k * n + c))
        × (read d'.timebase c ≡ read d.timebase c)
  unfolding cycles
  cycles-kept sss k c [] d d' saving e room before =
      let done = ok-injective e in
      (ap (λ s. read s.signal_data (k * n + c)) (sym done), ap (λ s. read s.timebase c) (sym done))
  cycles-kept sss k c (raw ∷ raws) d d' saving e room before =
      let (d1, lines, saved, ew, later) = cycles-step sss raw raws d d' saving e in
      let (values, times) =
        cycles-kept (sss + 1) k c raws d1 d' saving later (omega arith) (omega arith) in
      (
        values
            ∙ save_channels-kept calib chns 0 n sss (k * n + c) raw
                (collected calib sss raw d.baseline) d.signal_data d1.signal_data saved
                (λ l above. columns_apart l k n sss c (omega arith) (omega arith) (omega arith)),
        times ∙ read-write_ne d.timebase sss c (time_of tick sss) ew (omega arith),
      )

  pub cycles-entry :
      (sss k j : ℕ) (raws : List (List ℤ)) (d d' : Daq api I)
      → o.saveall ≡ true
      → cycles calc o calib tick n sss raws d ≡ ok d'
      → sss + length raws ≤ n
      → k < chns
      → j < length raws
      → (read d'.signal_data (k * n + (sss + j)) ≡ entry calib k sss raws j d.baseline)
        × (read d'.timebase (sss + j) ≡ ok (time_of tick (sss + j)))
  cycles-entry sss k j [] d d' saving e room channel cycle = absurd (omega arith)
  cycles-entry sss k zero (raw ∷ raws) d d' saving e room channel cycle =
      let (d1, lines, saved, ew, later) = cycles-step sss raw raws d d' saving e in
      let (values, times) =
        cycles-kept (sss + 1) k sss raws d1 d' saving later (omega arith) (omega arith) in
      let here : sss + 0 ≡ sss = omega arith in
      (
        rw here (
            values
            ∙ save_channels-sample calib chns 0 n sss k raw (collected calib sss raw d.baseline)
                d.signal_data d1.signal_data saved (omega arith) (omega arith) (omega arith)),
        rw here (times ∙ read-write d.timebase sss (time_of tick sss) ew),
      )
  cycles-entry sss k (suc j) (raw ∷ raws) d d' saving e room channel cycle =
      let (d1, lines, saved, ew, later) = cycles-step sss raw raws d d' saving e in
      let (values, times) =
        cycles-entry (sss + 1) k j raws d1 d' saving later (omega arith) channel (omega arith) in
      let next : sss + suc j ≡ sss + 1 + j = omega arith in
      (rw next (values ∙ ap (entry calib k (sss + 1) raws j) lines), rw next times)

  -- The flat array behind the 96 pointers, with its strides, implements the table of the shot: with
  -- `-q` and saving, the cycles of a shot go right, and then, for each channel and each cycle, the
  -- array holds, where the pointer of the channel leads for that cycle, the value that the table
  -- names, which is computed from the data of that cycle, the calibration of that channel and the
  -- base line so far; and the time base holds the time of each cycle. It wants arrays for `n`
  -- samples, at most `n` cycles, 96 calibration factors and 96 channels in each cycle.
  pub cycles-entry_lem :
      (raws : List (List ℤ)) (s : Vs I) (d : Daq api I) (k j : ℕ)
      → o.acqonly ≡ true
      → o.saveall ≡ true
      → length calib ≡ chns
      → IsOpen n s d
      → length raws ≤ n
      → HaveData raws
      → k < chns
      → j < length raws
      → (d' : Daq api I) × (v : Float) × (cycles calc o calib tick n 0 raws d ≡ ok d')
        × (entry calib k 0 raws j d.baseline ≡ ok v)
        × (read d'.signal_data (k * n + j) ≡ ok v)
        × (read d'.timebase j ≡ ok (time_of tick j))
  cycles-entry_lem raws s d k j only saving factors ready room full channel cycle =
      let (d', e, over) =
        cycles-IsOpen calc o calib tick n 0 raws s d only factors ready (omega arith) full in
      let (values, times) = cycles-entry 0 k j raws d d' saving e (omega arith) channel cycle in
      let inside : k * n + j < chns * n = omega (arith, suc-mul k n, mul-le-mul_right n channel) in
      let (v, shown) = read_within d'.signal_data (chns * n) (k * n + j) over.signal_data inside in
      let plain : 0 + j ≡ j = omega arith in
      (d', v, e, sym (rw plain at values) ∙ shown, shown, rw plain at times)
