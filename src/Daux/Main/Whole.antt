-- ===== src/Daux/Main/Whole.antt =====
-- A shot of daux.c that controls, from the file of the targets to its archive.
use daux4pcs2m.Base.{ℕ, Option, true, false, List, ◌≡◌, ap, sym, ◌∙◌, length}
use daux4pcs2m.Base.Int.{ℤ, pos}
use daux4pcs2m.Base.Text.{Text, Stream}
use daux4pcs2m.Real.{Ieee, Float, Dbl}
use daux4pcs2m.Memory.Result.{ok}
use daux4pcs2m.Rfm.{Rfm2g}
use daux4pcs2m.Vs.State.{Vs}
use daux4pcs2m.Vs.Init.{Env, total, fastz_init}
use daux4pcs2m.Vs.Init.Ready.{fastz_init-IsReady}
use daux4pcs2m.Vs.Cycle.{Calc}
use daux4pcs2m.Vs.Cycle.Arrays.{HasRows}
use daux4pcs2m.Mds.{MdsLib}
use daux4pcs2m.Daux.Options.{Options}
use daux4pcs2m.Daux.Shot.{chns}
use daux4pcs2m.Daux.Shot.Acquire.{IsOpen, HaveData}
use mathlib.Core.Path.{subst}
use daux4pcs2m.Daux.Main.Archived.{IsArchived}
use daux4pcs2m.Daux.Main.{Program}
use daux4pcs2m.Daux.Main.Controlled.{controlled, controlled_shot}

module _ ⦃m : Ieee⦄ (lib : MdsLib) {api : Rfm2g} {I : Type 0} (calc : Calc I)
    (create destroy : I → I) (env : Env) (o : Options) (calib : List Float) (tick : Dbl)
    (shot : ℤ) where
  -- A shot whose control is prepared without an error comes to its end: once `fastz_init` has gone
  -- right for both algorithms, all cycles go right and the shot is archived: its tree is opened, the
  -- channels of the acquisition are put, and then the seven signals of the control under their names,
  -- with the values and the times that `save_fastz` makes of the state at the end, and the tree is
  -- closed. This is for a shot that controls and saves in normal mode, whatever the data, the
  -- reflective memory and the library of the control are, with as many cycles as `fastz_init` counts
  -- samples, both as an int and for the waveforms, with step waves that name rows of the matrices, the
  -- arrays of the acquisition for as many cycles, 96 calibration factors and 96 channels in each
  -- cycle.
  pub prepared_shot :
      (n : ℕ) (interval : Dbl) (zfile : Option Stream) (zfbuf text : Text) (s t : Vs I)
      (raws : List (List ℤ)) (p : Program lib api I)
      → fastz_init create env interval zfile zfbuf s ≡ ok (t, text)
      → t.algmask.cc ≡ true
      → t.algmask.lm ≡ true
      → t.vs_samples ≡ pos n
      → total t.config.vs1_st t.config.vs1_et t.vs_interval ≡ pos n
      → HasRows t.config t.targets
      → o.acqonly ≡ false
      → o.istest ≡ false
      → o.saveall ≡ true
      → length calib ≡ chns
      → IsOpen n t p.daq
      → length raws ≡ n
      → HaveData raws
      → (q : Program lib api I) × (controlled lib calc create destroy env o calib tick shot n raws p
          ≡ ok q)
        × (q.daq.vs.vs_cycle ≡ n)
        × IsArchived lib shot n q.daq q.daq.vs p.session q.session
  prepared_shot n interval zfile zfbuf text s t raws p prepared cc_on lm_on samples count rows
        controls normal saving factors h cycles full =
      let (ready, begun) =
        fastz_init-IsReady create env n interval zfile zfbuf text s t prepared cc_on lm_on samples
          count rows in
      let (q, t', e, kept, f, whole, done) =
        controlled_shot lib calc create destroy env o calib tick shot n t raws p controls normal
          saving factors h ready begun samples cycles full in
      (
        q,
        e,
        ap (λ x. x.vs_cycle) kept ∙ whole,
        subst (λ x. IsArchived lib shot n q.daq x p.session q.session) (sym kept) done,
      )
