-- ===== src/Vs/Clean/DoubleFree.antt =====
-- What `fastz_clean` of vscontrol.h does to the arrays and the state of the control.
use daux4pcs2m.Base.{◌-◌, Bool, true, false, ◌||◌, List, ◌≡◌, ap, sym, ◌∙◌, arith, length}
use daux4pcs2m.Base.Int.{ℤ}
use daux4pcs2m.Real.{Ieee, Float, ◌≺◌}
use daux4pcs2m.Memory.Result.{ok, err, double_free, >>=-eq-ok, ok-injective}
use daux4pcs2m.Memory.Buffer.{Buffer, freed, live, free, write, read_list, read, read-write}
use daux4pcs2m.Vs.State.{Point, Wave, Config, Targets, Vs}
use daux4pcs2m.Vs.Linear.{linear}
use daux4pcs2m.Vs.Linear.Ownership.{linear_frees}
use daux4pcs2m.Vs.Init.{Grid, sampled, cc_interpolation_data, total}
use daux4pcs2m.Vs.Clean.{
  when, free_wave, free_cc, free_waves, stop_control, fastz_clean, lpf_reset, scratch_reset,
}

module _ ⦃m : Ieee⦄ where
  sampled_frees :
      (g : Grid) (n : ℤ) (start end : Float) (step : Bool) (vs : List Point) (first last : Point)
      (w : Wave) (b : Buffer Float)
      → read_list vs 0 ≡ ok first
      → read_list vs (length vs - 1) ≡ ok last
      → (end ≺ first.x) ≡ false
      → (last.x ≺ start) ≡ false
      → (start ≺ first.x || first.x ≺ start || end ≺ last.x) ≡ true
      → sampled g n start end step (record { points = live vs; len = length vs }) ≡ ok (w, b)
      → w.points ≡ freed
  unfolding sampled
  sampled_frees g n start end step vs first last w b r l before after cut e =
      let (out, e1, f1) = >>=-eq-ok (linear g.fuel g.samples g.interval _ start end _ step) _ e in
      let gone =
        linear_frees g.fuel g.samples g.interval vs first last start end _ step out r l before after
          cut e1 in
      ap (λ p. p.0.points) (sym (ok-injective f1)) ∙ gone.0

  -- The coil current waveform of VS1 that has to be cut to the times of the shot, or extended to
  -- its start, is freed while the shot is prepared, and `fastz_clean` frees it a second time: after
  -- `cc_interpolation_data` has succeeded on it, the block for the coil current algorithm always
  -- fails, whatever the other waveforms and the sampled arrays are by then.
  pub cc_interpolation_data-free_cc :
      (g : Grid) (start end : Float) (c c' : Config) (t t' later : Targets) (vs : List Point)
      (first last : Point)
      → c.ivs1 ≡ record { points = live vs; len = length vs }
      → read_list vs 0 ≡ ok first
      → read_list vs (length vs - 1) ≡ ok last
      → (end ≺ first.x) ≡ false
      → (last.x ≺ start) ≡ false
      → (start ≺ first.x || first.x ≺ start || end ≺ last.x) ≡ true
      → cc_interpolation_data g start end c t ≡ ok (c', t')
      → free_cc (c', later) ≡ err double_free
  unfolding cc_interpolation_data free_cc free_wave free
  cc_interpolation_data-free_cc g start end c c' t t' later vs first last wave r l before after cut
        e =
      let n = total start end g.interval in
      let ((w, b), e1, f1) = >>=-eq-ok (sampled g n start end false c.ivs1) _ e in
      let fresh = rw wave at e1 in
      let gone = sampled_frees g n start end false vs first last w b r l before after cut fresh in
      let kept : c'.ivs1 ≡ w = ground arith in rw kept (rw gone)

module _ ⦃m : Ieee⦄ {I : Type 0} (destroy : I → I) where
  -- After a shot that is cleaned up without an error the filter is as at the start of the program
  -- and the PID memory, where a pointer still leads to it, is zero, so that nothing of the control
  -- is carried over; but `algmask` is as it was, so that the next shot finds the algorithms of this
  -- one still marked.
  pub fastz_clean_resets :
      (s t : Vs I)
      → fastz_clean destroy s ≡ ok t
      → (t.lpf ≡ lpf_reset) × (read t.scratch 0 ≡ ok scratch_reset) × (t.algmask ≡ s.algmask)
  unfolding fastz_clean stop_control
  fastz_clean_resets s t e =
      let (ct, e1, f1) = >>=-eq-ok (free_waves s.algmask (s.config, s.targets)) _ e in
      let (s', e2, f2) =
        >>=-eq-ok (when (s.algmask.cc || s.algmask.lm) (stop_control destroy) _) _ f1 in
      let (b, e3, f3) = >>=-eq-ok (write s'.scratch 0 scratch_reset) _ f2 in
      let zeroed = read-write s'.scratch 0 scratch_reset e3 in
      let lpf = ap (λ (r : Vs I). r.lpf) (sym (ok-injective f3)) in
      let scratch = ap (λ (r : Vs I). r.scratch) (sym (ok-injective f3)) in
      let mask = ap (λ (r : Vs I). r.algmask) (sym (ok-injective f3)) in
      let kept : s'.algmask ≡ s.algmask = ground arith in (lpf, rw scratch zeroed, mask ∙ kept)
