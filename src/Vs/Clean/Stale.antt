-- ===== src/Vs/Clean/Stale.antt =====
-- A shot behind one that had the limited algorithm, in vscontrol.h.
use daux4pcs2m.Base.{Bool, true, false, ◌||◌, List, some, ◌≡◌, ◌≢◌, refl, ap, ◌∙◌, sym, arith}
use daux4pcs2m.Base.Text.{Text, Stream}
use daux4pcs2m.Real.{Ieee, Float, Dbl}
use daux4pcs2m.Memory.Result.{
  Result, ok, err, dangling_access, >>=-eq-ok, ok-injective, Always, Always-ok, Always->>=,
}
use daux4pcs2m.Memory.Buffer.{live, freed, contents, free, write}
use daux4pcs2m.Vs.State.{Point, Wave, Config, Targets, AlgMask, Vs}
use daux4pcs2m.Vs.Ztarget.{Input, read_ztarget}
use daux4pcs2m.Vs.Ztarget.Mask.{read_ztarget-KeepsBits}
use daux4pcs2m.Vs.Linear.{linear}
use daux4pcs2m.Vs.Init.{
  Grid, Env, sampled, cc_interpolation_data, lm_interpolation_data, interpolate, set_window,
  fastz_init,
}
use daux4pcs2m.Vs.Clean.{
  when, free_wave, free_cc, free_rows, free_lm_config, free_lm_targets, free_lm, free_ip, free_fd,
  free_sm, free_waves, stop_control, fastz_clean, scratch_reset,
}

module _ ⦃m : Ieee⦄ where
  -- The reference waveform of the limited algorithm has no vertices any more.
  abbrev IsStale : Config × Targets → Type 0
  IsStale (c, t) = c.zx1ref.points ≡ freed

  abbrev KeepsReference : Config × Targets → Config × Targets → Type 0
  KeepsReference (c, t) (c', t') = c'.zx1ref ≡ c.zx1ref

  free_cc-KeepsReference : (s r : Config × Targets) → free_cc s ≡ ok r → KeepsReference s r
  unfolding free_cc
  free_cc-KeepsReference (c, t) (c', t') e = ground arith

  free_ip-KeepsReference : (s r : Config × Targets) → free_ip s ≡ ok r → KeepsReference s r
  unfolding free_ip
  free_ip-KeepsReference (c, t) (c', t') e = ground arith

  free_fd-KeepsReference : (s r : Config × Targets) → free_fd s ≡ ok r → KeepsReference s r
  unfolding free_fd
  free_fd-KeepsReference (c, t) (c', t') e = ground arith

  free_sm-KeepsReference : (s r : Config × Targets) → free_sm s ≡ ok r → KeepsReference s r
  unfolding free_sm
  free_sm-KeepsReference (c, t) (c', t') e = ground arith

  when-KeepsReference :
      (b : Bool) (f : Config × Targets → Result (Config × Targets))
      → ((s r : Config × Targets) → f s ≡ ok r → KeepsReference s r)
      → (s r : Config × Targets) → when b f s ≡ ok r
      → KeepsReference s r
  when-KeepsReference true f h s r e = h s r e
  when-KeepsReference false f h s r e = ap (λ x. x.0.zx1ref) (sym (ok-injective e))

  free_lm_config-Always :
      (c : Config) (xs : List Point)
      → c.zx1ref.points ≡ live xs
      → Always (λ (d : Config). d.zx1ref.points ≡ freed) (free_lm_config c)
  unfolding free_lm_config free_wave free
  free_lm_config-Always c xs there = rw there (
      Always->>= (free_wave c.which_e) _ λ which_e _. Always->>= (free_wave c.which_m) _ λ _ _.
        Always->>= (free_wave c.zx1gp) _ λ _ _. Always->>= (free_wave c.zx1gd) _ λ _ _.
          Always->>= (free_wave c.zx1gi) _ λ _ _. Always->>= (free_wave c.zx1tp) _ λ _ _.
            Always->>= (free_wave c.zx1td) _ λ _ _. Always->>= (free_wave c.zx1ti) _ λ _ _.
              Always->>= (free_wave c.sztc) _ λ _ _. Always->>= (free_wave c.szdt) _ λ _ _.
                Always->>= (free c.mmatrix) _ λ _ _. Always->>= (contents c.ematrix) _ λ rows _.
                  Always->>= (free_rows which_e.len rows) _
                    λ _ _. Always->>= (free c.ematrix) _ λ _ _. Always-ok _ refl)

  free_lm-IsStale :
      (s r : Config × Targets) (xs : List Point)
      → s.0.zx1ref.points ≡ live xs
      → free_lm s ≡ ok r
      → IsStale r
  unfolding free_lm
  free_lm-IsStale (c, t) r xs there e =
      let (c', e1, f1) = >>=-eq-ok (free_lm_config c) _ e in
      let (t', e2, f2) = >>=-eq-ok (free_lm_targets t) _ f1 in
      ap (λ q. q.0.zx1ref.points) (sym (ok-injective f2))
      ∙ (free_lm_config-Always c xs there).always c' e1

  free_waves-IsStale :
      (mask : AlgMask) (s r : Config × Targets) (xs : List Point)
      → mask.lm ≡ true
      → s.0.zx1ref.points ≡ live xs
      → free_waves mask s ≡ ok r
      → IsStale r
  unfolding free_waves
  free_waves-IsStale mask s r xs lm there e =
      let (s1, e1, f1) = >>=-eq-ok (when mask.cc free_cc s) _ e in
      let (s2, e2, f2) = >>=-eq-ok (when mask.lm free_lm s1) _ f1 in
      let (s3, e3, f3) = >>=-eq-ok (when mask.ip free_ip s2) _ f2 in
      let (s4, e4, f4) = >>=-eq-ok (when mask.fd free_fd s3) _ f3 in
      let k1 = when-KeepsReference mask.cc free_cc free_cc-KeepsReference s s1 e1 in
      let k3 = when-KeepsReference mask.ip free_ip free_ip-KeepsReference s2 s3 e3 in
      let k4 = when-KeepsReference mask.fd free_fd free_fd-KeepsReference s3 s4 e4 in
      let k5 = when-KeepsReference mask.sm free_sm free_sm-KeepsReference s4 r f4 in
      let gone : IsStale s2 =
        free_lm-IsStale s1 s2 xs (ap (λ (w : Wave). w.points) k1 ∙ there) (rw lm at e2) in
      ap (λ (w : Wave). w.points) (k5 ∙ k4 ∙ k3) ∙ gone

  set_window-reference : (mask : AlgMask) (c : Config) → (set_window mask c).zx1ref ≡ c.zx1ref
  unfolding set_window
  set_window-reference mask c = ground arith

  cc_interpolation_data-KeepsReference :
      (g : Grid) (start end : Float) (c : Config) (t : Targets) (r : Config × Targets)
      → cc_interpolation_data g start end c t ≡ ok r
      → r.0.zx1ref ≡ c.zx1ref
  unfolding cc_interpolation_data
  cc_interpolation_data-KeepsReference g start end c t (c', t') e = ground arith

  lm_interpolation_data_stale :
      (g : Grid) (c : Config) (t : Targets)
      → c.zx1ref.points ≡ freed
      → lm_interpolation_data g c t ≡ err dangling_access
  unfolding lm_interpolation_data sampled linear
  lm_interpolation_data_stale g c t gone = simp (gone)

  interpolate_stale :
      (b : Bool) (mask : AlgMask) (g : Grid) (c : Config) (t : Targets) (r : Config × Targets)
      → mask.cc ≡ b
      → mask.lm ≡ true
      → c.zx1ref.points ≡ freed
      → interpolate mask g c t ≢ ok r
  unfolding interpolate
  interpolate_stale false mask g c t r no_cc lm gone e =
      let q = lm_interpolation_data_stale g c t gone in
      let wrong = rw q at (rw lm at (rw no_cc at e)) in cc
  interpolate_stale true mask g c t r has_cc lm gone e =
      let (s1, e1, f1) =
        >>=-eq-ok (cc_interpolation_data g c.vs1_st c.vs1_et c t) _ (rw has_cc at e) in
      let kept = cc_interpolation_data-KeepsReference g c.vs1_st c.vs1_et c t s1 e1 in
      let q = lm_interpolation_data_stale g s1.0 s1.1 (ap (λ (w : Wave). w.points) kept ∙ gone) in
      let wrong = rw q at (rw lm at f1) in cc

module _ ⦃m : Ieee⦄ {I : Type 0} where
  -- What cleaning up a shot of the limited algorithm leaves for the next one.
  fastz_clean_stale :
      (destroy : I → I) (s t : Vs I) (xs : List Point)
      → s.algmask.lm ≡ true
      → s.config.zx1ref.points ≡ live xs
      → fastz_clean destroy s ≡ ok t
      → (t.config.zx1ref.points ≡ freed) × (t.algmask.lm ≡ true)
  unfolding fastz_clean stop_control
  fastz_clean_stale destroy s t xs lm there e =
      let (ct, e1, f1) = >>=-eq-ok (free_waves s.algmask (s.config, s.targets)) _ e in
      let (s', e2, f2) =
        >>=-eq-ok (when (s.algmask.cc || s.algmask.lm) (stop_control destroy) _) _ f1 in
      let (b, e3, f3) = >>=-eq-ok (write s'.scratch 0 scratch_reset) _ f2 in
      let gone = free_waves-IsStale s.algmask (s.config, s.targets) ct xs lm there e1 in
      let config = ap (λ (r : Vs I). r.config) (sym (ok-injective f3)) in
      let mask = ap (λ (r : Vs I). r.algmask) (sym (ok-injective f3)) in
      let kept : (s'.algmask ≡ s.algmask) × (s'.config ≡ ct.0) = ground arith in
      (
        ap (λ (r : Config). r.zx1ref.points) (config ∙ kept.1) ∙ gone,
        ap (λ (r : AlgMask). r.lm) (mask ∙ kept.0) ∙ lm,
      )

  -- The shot behind one that had the limited algorithm: when `fastz_clean` comes to its end for a
  -- shot with the bit of that algorithm and a reference waveform in memory, and the next ztarget file
  -- reads in but leaves that waveform as it was, as a file without its section does, `fastz_init` of
  -- the next shot never comes to its end, whatever else the file holds: the bit is still there, and
  -- the waveform that it stands for is freed.
  pub fastz_init_stale :
      (create destroy : I → I) (env : Env) (interval : Dbl) (f : Stream) (zfbuf : Text) (s t : Vs I)
      (u : Vs I × Text) (xs : List Point) (mask : AlgMask) (c : Config) (i : Input)
      → s.algmask.lm ≡ true
      → s.config.zx1ref.points ≡ live xs
      → fastz_clean destroy s ≡ ok t
      → read_ztarget env.scan env.garbage env.read_fuel (some f) zfbuf (t.algmask, t.config)
        ≡ ok ((mask, c), i)
      → c.zx1ref ≡ t.config.zx1ref
      → fastz_init create env interval (some f) zfbuf t ≢ ok u
  unfolding fastz_init
  fastz_init_stale create destroy env interval f zfbuf s t u xs mask c i lm there e read same done =
      let (gone, marked) = fastz_clean_stale destroy s t xs lm there e in
      let bits =
        read_ztarget-KeepsBits env.scan env.garbage env.read_fuel f zfbuf t.algmask mask t.config c
          i read in
      let still : mask.lm ≡ true = sym (rw marked at bits.lm) in
      let w = set_window mask c in
      let freed_reference =
        ap (λ (r : Wave). r.points) (set_window-reference mask c ∙ same) ∙ gone in
      let (r, e1, f1) = >>=-eq-ok (interpolate mask _ w t.targets) _ (rw read at done) in
      interpolate_stale mask.cc mask _ w t.targets r refl still freed_reference e1
