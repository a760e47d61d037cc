-- ===== src/Daux/Shot/Live.antt =====
-- The loop over the cycles of a shot in `main` of daux.c, with the wait in each.
use daux4pcs2m.Base.{ℕ, zero, suc, ◌+◌, List, ◌≡◌, refl, length, map, ◌∙◌}
use daux4pcs2m.Real.{Ieee, Float, Dbl}
use daux4pcs2m.Memory.Result.{Result, ok, ◌>>=◌, >>=-eq-ok, ok-injective}
use daux4pcs2m.Memory.Buffer.{write}
use daux4pcs2m.Rfm.{Rfm2g}
use daux4pcs2m.Vs.Cycle.{Calc}
use daux4pcs2m.Daq.Ident.{short_of}
use daux4pcs2m.Daux.Options.{Options}
use daux4pcs2m.Daux.Shot.{Daq, run, cycles, time_of}
use daux4pcs2m.Daux.Shot.Wait.{
  tlatch, acquire, acquire_all, acquire_all-Watches, data_in, data_in-Change, Change, Watches,
}

module _ (spix : ℕ) ⦃m : Ieee⦄ {api : Rfm2g} {I : Type 0} (calc : Calc I) (o : Options)
    (calib : List Float) (tick : Dbl) (nsamples : ℕ) where
  -- The loop over the cycles with its waits, for the rounds left.
  unfoldable pub live_cycles : ℕ → ℕ → ℕ → List (List ℕ) → Daq api I → Result (Daq api I)
  live_cycles zero sss tl0 looks d = ok d
  live_cycles (suc left) sss tl0 looks d = do
    (ai, tl1, later) ← acquire spix tl0 looks
    d' ← run calc o calib tick nsamples sss (map short_of ai) d
    timebase ← write d'.timebase sss (time_of tick sss)
    live_cycles left (sss + 1) tl1 later (record d' { timebase = timebase })

  live_cycles-cycles :
      (left sss tl0 : ℕ) (looks ais : List (List ℕ)) (d : Daq api I)
      → acquire_all spix left tl0 looks ≡ ok ais
      → live_cycles left sss tl0 looks d
        ≡ cycles calc o calib tick nsamples sss (map (map short_of) ais) d
  unfolding live_cycles acquire_all cycles
  live_cycles-cycles zero sss tl0 looks ais d e = rw⁻¹ (ok-injective e) refl
  live_cycles-cycles (suc left) sss tl0 looks ais d e =
      let (r, er, e1) = >>=-eq-ok (acquire spix tl0 looks) _ e in
      let (rest, es, e2) = >>=-eq-ok (acquire_all spix left r.1 r.2) _ e1 in
      let later : (d1 : Daq api I)
          → live_cycles left (sss + 1) r.1 r.2 d1
            ≡ cycles calc o calib tick nsamples (sss + 1) (map (map short_of) rest) d1 =
        λ d1. live_cycles-cycles left (sss + 1) r.1 r.2 rest d1 es in
      rw⁻¹ (ok-injective e2) (
        rw er λ i. run calc o calib tick nsamples sss (map short_of r.0) d >>= λ d'.
        write d'.timebase sss (time_of tick sss) >>= λ timebase.
        later (record d' { timebase = timebase }) i)

  -- The loop of a shot with its waits, on a device that writes while the program runs, does what the
  -- loop does on the samples of the device, each taken once and in order, for a program that is
  -- quick: it may look at the memory at any time, and it looks at least twice at each sample before
  -- the next one arrives. The samples are whole, and each has another latch than the one before.
  pub live_cycles-cycles_lem :
      {now : List ℕ} {coming looks : List (List ℕ)} (tl0 : ℕ) (d : Daq api I)
      → Watches spix now coming looks
      → tlatch spix now ≡ ok tl0
      → Change spix tl0 coming
      → (ais : List (List ℕ)) × (data_in spix coming ≡ ok ais)
        × (live_cycles (length coming) 0 tl0 looks d
            ≡ cycles calc o calib tick nsamples 0 (map (map short_of) ais) d)
  live_cycles-cycles_lem {coming = coming} {looks = looks} tl0 d w e changes =
      let (ais, taken) = data_in-Change spix tl0 coming changes in
      (
        ais,
        taken,
        live_cycles-cycles (length coming) 0 tl0 looks ais d
            (acquire_all-Watches spix tl0 w e changes ∙ taken),
      )
