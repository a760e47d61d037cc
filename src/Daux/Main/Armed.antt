-- ===== src/Daux/Main/Armed.antt =====
-- The cycles of a shot in `main` of daux.c, from the memory that is armed before them on.
use daux4pcs2m.Base.{ℕ, ◌+◌, ◌*◌, ◌/◌, ◌≤◌, ◌<◌, List, ◌≡◌, length, map, ap, sym, ◌∙◌}
use daux4pcs2m.Base.Int.{pos_part}
use daux4pcs2m.Real.{Ieee, Float, Dbl}
use daux4pcs2m.Memory.Result.{ok, ok-injective}
use daux4pcs2m.Memory.Buffer.{live, HasSize}
use daux4pcs2m.Rfm.{Rfm2g}
use daux4pcs2m.Vs.Cycle.{Calc}
use daux4pcs2m.Daq.{Acq}
use daux4pcs2m.Daq.Words.{read_word}
use daux4pcs2m.Daq.Setup.{nshorts}
use daux4pcs2m.Daq.Ident.{short_of}
use daux4pcs2m.Daux.Options.{Options}
use daux4pcs2m.Daux.Shot.{Daq, cycles}
use daux4pcs2m.Daux.Shot.Wait.{Watches, Change, data_in}
use daux4pcs2m.Daux.Shot.Live.{live_cycles, live_cycles-cycles_lem}
use daux4pcs2m.Daux.Main.{arm}
use daux4pcs2m.Daux.Main.Waiting.{arm_within}

-- SPIX: the word of the latch
abbrev pub spix : Acq → ℕ
spix a = pos_part a.settings.nchan * 2 / 4

arm-latch :
    (a : Acq) (size : ℕ) (now : List ℕ)
    → HasSize size a.host_buffer
    → nshorts ≤ size
    → spix a * 2 + 1 < size
    → arm a ≡ ok (record a { host_buffer = live now })
    → read_word (live now) 0 (spix a) ≡ ok 0xdeadbeef
arm-latch a size now h room marked armed =
    let (c, e, hc, r) = arm_within a size h room marked in
    let same : c ≡ live now = ap (λ x. x.host_buffer) (ok-injective (sym e ∙ armed)) in
    ap (λ b. read_word b 0 (spix a)) (sym same) ∙ r

module _ ⦃m : Ieee⦄ {api : Rfm2g} {I : Type 0} (calc : Calc I) (o : Options) (calib : List Float)
    (tick : Dbl) (nsamples : ℕ) where
  -- From the memory on that `arm` leaves, the loop over the cycles with its waits does, on a device
  -- that writes while the program runs, what the loop does on the samples of the device, each taken
  -- once and in order. This is for a program that is quick: it may look at the memory at any time, and
  -- it looks at least twice at each sample before the next one arrives. The memory has room for the
  -- sample and for the latch; the samples are whole, and each has another latch than the one before,
  -- the first another one than 0xdeadbeef.
  pub armed_cycles :
      {now : List ℕ} {coming looks : List (List ℕ)} (a : Acq) (size : ℕ) (d : Daq api I)
      → HasSize size a.host_buffer
      → nshorts ≤ size
      → spix a * 2 + 1 < size
      → arm a ≡ ok (record a { host_buffer = live now })
      → Watches (spix a) now coming looks
      → Change (spix a) 0xdeadbeef coming
      → (ais : List (List ℕ)) × (data_in (spix a) coming ≡ ok ais)
        × (live_cycles (spix a) calc o calib tick nsamples (length coming) 0 0xdeadbeef looks d
            ≡ cycles calc o calib tick nsamples 0 (map (map short_of) ais) d)
  armed_cycles {now = now} a size d h room marked armed w changes =
      live_cycles-cycles_lem (spix a) calc o calib tick nsamples 0xdeadbeef d w
        (arm-latch a size now h room marked armed) changes
