-- ===== src/Vs/Init/Ready.antt =====
-- What `fastz_init` of vscontrol.h leaves for the cycles, when it goes right.
use daux4pcs2m.Base.{ℕ, Bool, true, false, ◌||◌, Option, ◌≡◌, refl, ap, sym, ◌∙◌, if◌then◌else◌}
use daux4pcs2m.Base.Int.{pos}
use daux4pcs2m.Base.Text.{Text, Stream}
use daux4pcs2m.Real.{Ieee, Dbl, ◌⊖◌, ◌⧄◌, nought}
use daux4pcs2m.Memory.Result.{ok, ok-injective}
use daux4pcs2m.Memory.Buffer.{HasSize, HasSize-allocate, allocate}
use daux4pcs2m.Vs.State.{Vs}
use daux4pcs2m.Vs.Ztarget.{read_ztarget}
use daux4pcs2m.Vs.Init.{Grid, Env, total, interpolate, set_window, start_control, fastz_init}
use daux4pcs2m.Vs.Cycle.Arrays.{HasRows}
use daux4pcs2m.Vs.Cycle.Ready.{IsReady}
use mathlib.Core.Path.{subst}
use daux4pcs2m.Vs.Init.Sampled.{step_then, AllSampled, interpolate_sampled}

module _ ⦃m : Ieee⦄ {I : Type 0} (create : I → I) (env : Env) where
  open m use {widen, narrow, trunc}

  branch : {A : Type 0} (b c : Bool) (u s : A) → b ≡ true → (if b || c then u else s) ≡ u
  branch true c u s e = refl
  branch false c u s e = cc

  -- A field that both branches share.
  shared :
      {A : Type 0} (f : Vs I → A) (b c : Bool) (u s : Vs I)
      → f u ≡ f s
      → f (if b || c then u else s) ≡ f s
  shared f true c u s e = e
  shared f false true u s e = e
  shared f false false u s e = refl

  start_control-IsReady :
      (n : ℕ) (s : Vs I)
      → AllSampled n s.targets
      → s.vs_samples ≡ pos n
      → HasSize n s.trace.timebase
      → HasRows s.config s.targets
      → IsReady n (start_control create env s)
        × ((start_control create env s).vs_cycle ≡ s.vs_cycle)
  unfolding start_control
  start_control-IsReady n s (current, voltage, ref, gp, gd, gi, tp, td, ti, sztc, szdt, we, wm)
        samples timebase rows =
      let floats : HasSize n (allocate s.vs_samples nought) =
        rw samples (HasSize-allocate n nought) in
      let words : HasSize n (allocate s.vs_samples 0) = rw samples (HasSize-allocate {A = ℕ} n 0) in
      (
        record {
          trace = record {
            timebase = timebase;
            zpos = floats;
            error = floats;
            derror = floats;
            pvector = floats;
            precmd = floats;
            fincmd = words;
            fincmd_bit = words;
          };
          voltage = voltage;
          current = current;
          lm = record {
            zx1ref = ref;
            gp = gp;
            gd = gd;
            gi = gi;
            tp = tp;
            td = td;
            ti = ti;
            sztc = sztc;
            szdt = szdt;
            which_e = we;
            which_m = wm;
          };
          rows = rows;
          scratch = refl;
        },
        refl,
      )

  -- Once `fastz_init` has gone right for both algorithms, the cycles have what they need: the arrays
  -- of the waveforms and those that are recorded have `n` elements, and the cycles are counted from 0,
  -- where the shot has `n` samples. The count of the samples as an int and as the waveforms take it
  -- has to agree, and the step waves have to name rows of the matrices.
  pub fastz_init-IsReady :
      (n : ℕ) (interval : Dbl) (zfile : Option Stream) (zfbuf text : Text) (s t : Vs I)
      → fastz_init create env interval zfile zfbuf s ≡ ok (t, text)
      → t.algmask.cc ≡ true
      → t.algmask.lm ≡ true
      → t.vs_samples ≡ pos n
      → total t.config.vs1_st t.config.vs1_et t.vs_interval ≡ pos n
      → HasRows t.config t.targets
      → IsReady n t × (t.vs_cycle ≡ 0)
  unfolding fastz_init start_control
  fastz_init-IsReady n interval zfile zfbuf text s t e cc_on lm_on samples count rows =
      let goal = IsReady n t × (t.vs_cycle ≡ 0) in
      step_then (read_ztarget env.scan env.garbage env.read_fuel zfile zfbuf (s.algmask, s.config))
        goal e
        λ q eq fq.
          let mask = q.0.0 in
          let c = set_window mask q.0.1 in
          let total_time = trunc (widen (c.vs1_et ⊖ c.vs1_st) ⧄ interval) in
          let g : Grid = record {
            fuel = env.sample_fuel;
            samples = total_time;
            interval = narrow interval;
          } in
          step_then (interpolate mask g c s.targets) goal fq λ r er fr.
            let s1 : Vs I = record s {
              algmask = mask;
              vs_cycle = 0;
              vs_time = nought;
              vs_interval = narrow interval;
              vs_samples = total_time;
              config = r.0;
              targets = r.1;
              trace = record s.trace { timebase = allocate total_time env.garbage.x };
            } in
            let s2 = start_control create env s1 in
            let same : (if mask.cc || mask.lm then s2 else s1) ≡ t =
              ap (λ x. x.0) (ok-injective fr) in
            let masks : t.algmask ≡ mask =
              ap (λ x. x.algmask) (sym same) ∙ shared (λ x. x.algmask) mask.cc mask.lm s2 s1 refl in
            let on : mask.cc ≡ true = ap (λ x. x.cc) (sym masks) ∙ cc_on in
            let both : mask.lm ≡ true = ap (λ x. x.lm) (sym masks) ∙ lm_on in
            let ends : s2 ≡ t = sym (branch mask.cc mask.lm s2 s1 on) ∙ same in
            let (window, sizes) = interpolate_sampled n mask g c s.targets r on both er in
            let samples' : total_time ≡ pos n = ap (λ x. x.vs_samples) ends ∙ samples in
            let count' : total r.0.vs1_st r.0.vs1_et g.interval ≡ pos n =
              ap (λ x. total x.config.vs1_st x.config.vs1_et x.vs_interval) ends ∙ count in
            let timebase : HasSize n (allocate total_time env.garbage.x) =
              rw samples' (HasSize-allocate n env.garbage.x) in
            let rows' : HasRows r.0 r.1 = subst (λ x. HasRows x.config x.targets) (sym ends) rows in
            let ready =
              start_control-IsReady n s1 (sizes (rw window.0 at (rw window.1 at count'))) samples'
                timebase rows' in
            subst (λ x. IsReady n x × (x.vs_cycle ≡ 0)) ends ready
