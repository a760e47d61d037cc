-- ===== src/Vs/Cycle/Plan.antt =====
-- What `fastz` of vscontrol.h leaves alone: the count of the samples, the algorithms, and the arrays
-- of the waveforms.
use daux4pcs2m.Base.{Bool, List, [], ◌∷◌, ◌≡◌, refl, ap, sym, ◌∙◌, arith}
use daux4pcs2m.Base.Int.{ℤ}
use daux4pcs2m.Real.{Ieee, Float, ◌⊖◌, ◌⊗◌}
use daux4pcs2m.Memory.Result.{ok, >>=-eq-ok, ok-injective, Always, Always-ok, Always->>=}
use daux4pcs2m.Memory.Buffer.{Buffer, read, write, read_list}
use daux4pcs2m.Filter.{Lpf, low_pass_filter}
use daux4pcs2m.Pid.{Scratch, pid_element}
use daux4pcs2m.Vs.State.{Vs}
use daux4pcs2m.Vs.Cycle.{
  Calc, fastz, fastz_run, stamp, coil_current, limited, limited_test, limited_normal, command,
  nominal, daq_rl01, index, position, gains, slow_z,
}

module _ ⦃m : Ieee⦄ {I : Type 0} where
  open m use {to_int}

  pub record SamePlan (s t : Vs I) : Type 0 where
    pub samples : t.vs_samples ≡ s.vs_samples
    pub algmask : t.algmask ≡ s.algmask
    pub config : t.config ≡ s.config
    pub targets : t.targets ≡ s.targets

  then_same : (r s t : Vs I) → SamePlan r s → SamePlan s t → SamePlan r t
  then_same r s t p q = record {
    samples = q.samples ∙ p.samples;
    algmask = q.algmask ∙ p.algmask;
    config = q.config ∙ p.config;
    targets = q.targets ∙ p.targets;
  }

  stamp-SamePlan : (time : Float) (s t : Vs I) → stamp time s ≡ ok t → SamePlan s t
  unfolding stamp
  stamp-SamePlan time s t e = ground arith

  coil_current-SamePlan : (time : Float) (s t : Vs I) → coil_current time s ≡ ok t → SamePlan s t
  unfolding coil_current
  coil_current-SamePlan time s t e = ground arith

  limited_test-SamePlan : (s t : Vs I) → limited_test s ≡ ok t → SamePlan s t
  unfolding limited_test
  limited_test-SamePlan s t e = ground arith

  -- What the limited algorithm in normal mode returns is the state before, with new values of what it
  -- records and remembers.
  pub limited_normal-Always :
      (P : Vs I → Type 0) (xs : List Float) (time : Float) (s : Vs I)
      → ((zpos error derror pvector precmd : Buffer Float) (x : Float) (lpf : Lpf)
            (scratch : Buffer Scratch) (in_shape : List Float)
          → write s.trace.precmd s.vs_cycle x ≡ ok precmd
          → P (record s {
            trace = record s.trace {
              zpos = zpos;
              error = error;
              derror = derror;
              pvector = pvector;
              precmd = precmd;
            };
            lpf = lpf;
            scratch = scratch;
            in_shape = in_shape;
          }))
      → Always P (limited_normal xs time s)
  unfolding limited_normal
  limited_normal-Always P xs time s holds =
      let i = s.vs_cycle in
      Always->>= (read s.targets.which_e i) _ λ which_e _.
        Always->>= (read s.targets.which_m i) _ λ which_m _.
          Always->>= (read_list xs daq_rl01) _ λ ip _.
            Always->>= (position i (to_int which_e) ip xs s.config s.trace.zpos) _ λ z _.
              Always->>= (write s.trace.zpos i z) _ λ zpos _.
                Always->>= (read s.targets.zx1ref i) _ λ ref _.
                  Always->>= (read s.targets.sztc i) _ λ sztc _.
                    Always->>= (read s.targets.szdt i) _ λ szdt _.
                      let filtered = low_pass_filter (ref ⊖ z) sztc time s.lpf in
                      Always->>= (write s.trace.derror i filtered.0) _ λ derror _.
                        let slowed = slow_z time sztc szdt (ref ⊖ z) filtered.0 filtered.1 in
                        Always->>= (write s.trace.error i slowed.0) _ λ error _.
                          Always->>= (gains i s.targets) _ λ g _.
                            Always->>= (read s.scratch 0) _ λ old _.
                              let out = pid_element time g 1 1 slowed.0 old in
                              Always->>= (write s.trace.pvector i out.0) _ λ pvector _.
                                Always->>= (write s.scratch 0 out.2) _ λ scratch _.
                                  Always->>= (index (to_int which_m)) _ λ row _.
                                    Always->>= (read s.config.mmatrix row) _ λ k _.
                                      Always->>= (write s.trace.precmd i (k ⊗ out.0)) _
                                        λ precmd written. Always-ok _ (
                                          holds zpos error derror pvector precmd (k ⊗ out.0)
                                            slowed.1 scratch
                                            (out.1.vout ∷ out.1.dout ∷ out.1.iout ∷ []) written)

  limited_normal-SamePlan :
      (xs : List Float) (time : Float) (s t : Vs I) → limited_normal xs time s ≡ ok t → SamePlan s t
  limited_normal-SamePlan xs time s t e =
      (limited_normal-Always (SamePlan s) xs time s
          (λ zpos error derror pvector precmd x lpf scratch in_shape written. record {
            samples = refl;
            algmask = refl;
            config = refl;
            targets = refl;
          })).always
        t e

  limited-SamePlan :
      (istest : Bool) (xs : List Float) (time : Float) (s t : Vs I)
      → limited istest xs time s ≡ ok t
      → SamePlan s t
  unfolding limited
  limited-SamePlan istest xs time s t e =
      ground (arith, limited_test-SamePlan s t, limited_normal-SamePlan xs time s t)

  command-SamePlan :
      (calc : Calc I) (istest : Bool) (xs : List Float) (time : Float) (s t : Vs I)
      → command calc istest xs time s ≡ ok t
      → SamePlan s t
  unfolding command
  command-SamePlan calc istest xs time s t e = ground arith

  pub fastz_run-SamePlan :
      (calc : Calc I) (istest : Bool) (calib : List Float) (cycles : List (List ℤ × Float))
      (s t : Vs I)
      → fastz_run calc istest calib cycles s ≡ ok t
      → SamePlan s t
  unfolding fastz_run fastz
  fastz_run-SamePlan calc istest calib [] s t e =
      let same = sym (ok-injective e) in
      record {
        samples = ap (λ r. r.vs_samples) same;
        algmask = ap (λ r. r.algmask) same;
        config = ap (λ r. r.config) same;
        targets = ap (λ r. r.targets) same;
      }
  fastz_run-SamePlan calc istest calib ((raw, time) ∷ rest) s t e =
      let xs = nominal calib raw in
      let (s', e', later) = >>=-eq-ok (fastz calc istest calib raw time s) _ e in
      let (s1, e1, f1) = >>=-eq-ok (stamp time s) _ e' in
      let (s2, e2, f2) = >>=-eq-ok (coil_current time s1) _ f1 in
      let (s3, e3, f3) = >>=-eq-ok (limited istest xs time s2) _ f2 in
      then_same s s1 t (stamp-SamePlan time s s1 e1) (
        then_same s1 s2 t (coil_current-SamePlan time s1 s2 e2) (
          then_same s2 s3 t (limited-SamePlan istest xs time s2 s3 e3) (
            then_same s3 s' t (command-SamePlan calc istest xs time s3 s' f3)
              (fastz_run-SamePlan calc istest calib rest s' t later))))
