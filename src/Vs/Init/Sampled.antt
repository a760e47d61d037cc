-- ===== src/Vs/Init/Sampled.antt =====
-- The arrays that the functions *_interpolation_data of vscontrol.h sample, when they go right.
use daux4pcs2m.Base.{ℕ, Bool, true, false, ◌≡◌, refl, ap, ◌∙◌}
use daux4pcs2m.Base.Int.{ℤ, pos}
use daux4pcs2m.Real.{Ieee, Float, nought}
use daux4pcs2m.Memory.Result.{Result, ok, ◌>>=◌, >>=-eq-ok, ok-injective}
use daux4pcs2m.Memory.Buffer.{Buffer, HasSize, HasSize-allocate, allocate}
use daux4pcs2m.Vs.State.{Wave, Config, Targets, AlgMask}
use daux4pcs2m.Vs.Linear.{linear}
use daux4pcs2m.Vs.Linear.Sizes.{linear-HasSize}
use daux4pcs2m.Vs.Init.{
  Grid, total, sampled, cc_interpolation_data, lm_interpolation_data, ip_interpolation_data,
  fd_interpolation_data, sm_interpolation_data, when, interpolate,
}
use mathlib.Core.Path.{subst}

module _ ⦃m : Ieee⦄ where
  -- The times of the shot are the same.
  abbrev pub SameWindow : Config → Config → Type 0
  SameWindow c d = (d.vs1_st ≡ c.vs1_st) × (d.vs1_et ≡ c.vs1_et)

  -- The arrays of the coil current algorithm, for `n` cycles.
  abbrev CcSampled : ℕ → Targets → Type 0
  CcSampled n t = HasSize n t.ccivs1 × HasSize n t.ccvvs1

  -- And those of both algorithms.
  abbrev pub AllSampled : ℕ → Targets → Type 0
  AllSampled n t =
      HasSize n t.ccivs1
      × HasSize n t.ccvvs1
      × HasSize n t.zx1ref
      × HasSize n t.zx1gp
      × HasSize n t.zx1gd
      × HasSize n t.zx1gi
      × HasSize n t.zx1tp
      × HasSize n t.zx1td
      × HasSize n t.zx1ti
      × HasSize n t.sztc
      × HasSize n t.szdt
      × HasSize n t.which_e
      × HasSize n t.which_m

  sampled-HasSize :
      (n : ℕ) (g : Grid) (count : ℤ) (start end : Float) (step : Bool) (w : Wave)
      (r : Wave × Buffer Float)
      → count ≡ pos n
      → sampled g count start end step w ≡ ok r
      → HasSize n r.1
  unfolding sampled
  sampled-HasSize n g count start end step w r plain e =
      let fresh = allocate count nought in
      let size : HasSize n fresh = rw plain (HasSize-allocate n nought) in
      let (s, es, fs) = >>=-eq-ok (linear g.fuel g.samples g.interval w start end fresh step) _ e in
      rw (ap (λ x. x.1) (ok-injective fs)) at
        (linear-HasSize n g.fuel g.samples g.interval w start end fresh step s size es)

  -- The first part of what goes right goes right.
  pub step_then :
      {A B : Type 0} (first : Result A) {rest : A → Result B} {r : B} (goal : Type 0)
      → (first >>= rest) ≡ ok r
      → ((x : A) → first ≡ ok x → rest x ≡ ok r → goal)
      → goal
  step_then first {rest = rest} goal e next =
      let (x, ex, fx) = >>=-eq-ok first rest e in next x ex fx

  -- A waveform is sampled first.
  sampled_then :
      (n : ℕ) (g : Grid) (count : ℤ) (start end : Float) (step : Bool) (w : Wave)
      {rest : Wave × Buffer Float → Result (Config × Targets)} {r : Config × Targets}
      (goal : Type 0)
      → (sampled g count start end step w >>= rest) ≡ ok r
      → ((x : Wave × Buffer Float) → (count ≡ pos n → HasSize n x.1) → rest x ≡ ok r → goal)
      → goal
  sampled_then n g count start end step w goal e next =
      step_then (sampled g count start end step w) goal e
        λ x ex fx. next x (λ plain. sampled-HasSize n g count start end step w x plain ex) fx

  cc_sampled :
      (n : ℕ) (g : Grid) (start end : Float) (c : Config) (t : Targets) (r : Config × Targets)
      → cc_interpolation_data g start end c t ≡ ok r
      → SameWindow c r.0 × (total start end g.interval ≡ pos n → CcSampled n r.1)
  unfolding cc_interpolation_data
  cc_sampled n g start end c t r e =
      let count = total start end g.interval in
      let goal = SameWindow c r.0 × (count ≡ pos n → CcSampled n r.1) in
      sampled_then n g count start end false c.ivs1 goal e λ w0 h0 f0.
        sampled_then n g count start end false c.ivs2 goal f0 λ w1 h1 f1.
          sampled_then n g count start end false c.vvs1 goal f1 λ w2 h2 f2.
            sampled_then n g count start end false c.vvs2 goal f2 λ w3 h3 f3.
              subst (λ x. SameWindow c x.0 × (count ≡ pos n → CcSampled n x.1)) (ok-injective f3)
                ((refl, refl), λ k. (h0 k, h2 k))

  lm_sampled :
      (n : ℕ) (g : Grid) (c : Config) (t : Targets) (r : Config × Targets)
      → lm_interpolation_data g c t ≡ ok r
      → SameWindow c r.0
        × (total c.vs1_st c.vs1_et g.interval ≡ pos n → CcSampled n t → AllSampled n r.1)
  unfolding lm_interpolation_data
  lm_sampled n g c t r e =
      let count = total c.vs1_st c.vs1_et g.interval in
      let goal = SameWindow c r.0 × (count ≡ pos n → CcSampled n t → AllSampled n r.1) in
      sampled_then n g count c.limit_st c.limit_et false c.zx1ref goal e λ w0 h0 f0.
        sampled_then n g count c.limit_st c.limit_et true c.which_e goal f0 λ w1 h1 f1.
          sampled_then n g count c.limit_st c.limit_et true c.which_m goal f1 λ w2 h2 f2.
            sampled_then n g count c.limit_st c.limit_et false c.zx1gp goal f2 λ w3 h3 f3.
              sampled_then n g count c.limit_st c.limit_et false c.zx1gd goal f3 λ w4 h4 f4.
                sampled_then n g count c.limit_st c.limit_et false c.zx1gi goal f4 λ w5 h5 f5.
                  sampled_then n g count c.limit_st c.limit_et false c.zx1tp goal f5 λ w6 h6 f6.
                    sampled_then n g count c.limit_st c.limit_et false c.zx1td goal f6 λ w7 h7 f7.
                      sampled_then n g count c.limit_st c.limit_et false c.zx1ti goal f7 λ w8 h8 f8.
                        sampled_then n g count c.limit_st c.limit_et false c.sztc goal f8
                          λ w9 h9 f9.
                            sampled_then n g count c.limit_st c.limit_et false c.szdt goal f9
                              λ w10 h10 f10.
                                subst
                                  (λ x.
                                    SameWindow c x.0
                                    × (count ≡ pos n → CcSampled n t → AllSampled n x.1))
                                  (ok-injective f10)
                                  (
                                    (refl, refl),
                                    λ k cc. (
                                      cc.0,
                                      cc.1,
                                      h0 k,
                                      h3 k,
                                      h4 k,
                                      h5 k,
                                      h6 k,
                                      h7 k,
                                      h8 k,
                                      h9 k,
                                      h10 k,
                                      h1 k,
                                      h2 k,
                                    ),
                                  )

  -- The times stay, and the arrays of both algorithms.
  abbrev Kept : ℕ → Config × Targets → Config × Targets → Type 0
  Kept n a r = SameWindow a.0 r.0 × (AllSampled n a.1 → AllSampled n r.1)

  Kept-trans : (n : ℕ) (a b d : Config × Targets) → Kept n a b → Kept n b d → Kept n a d
  Kept-trans n a b d ((s, t), h) ((s', t'), h') = ((s' ∙ s, t' ∙ t), λ x. h' (h x))

  ip_kept :
      (n : ℕ) (g : Grid) (start end : Float) (c : Config) (t : Targets) (r : Config × Targets)
      → ip_interpolation_data g start end c t ≡ ok r
      → Kept n (c, t) r
  unfolding ip_interpolation_data
  ip_kept n g start end c t r e =
      let count = total start end g.interval in
      let goal = Kept n (c, t) r in
      sampled_then n g count start end false c.ipref goal e
        λ w0 h0 f0. subst (Kept n (c, t)) (ok-injective f0) ((refl, refl), λ h. h)

  fd_kept :
      (n : ℕ) (g : Grid) (start end : Float) (c : Config) (t : Targets) (r : Config × Targets)
      → fd_interpolation_data g start end c t ≡ ok r
      → Kept n (c, t) r
  unfolding fd_interpolation_data
  fd_kept n g start end c t r e =
      let count = total start end g.interval in
      let goal = Kept n (c, t) r in
      sampled_then n g count start end true c.ipeoo goal e λ w0 h0 f0.
        sampled_then n g count start end false c.ipetl goal f0
          λ w1 h1 f1. subst (Kept n (c, t)) (ok-injective f1) ((refl, refl), λ h. h)

  sm_kept :
      (n : ℕ) (g : Grid) (start end : Float) (c : Config) (t : Targets) (r : Config × Targets)
      → sm_interpolation_data g start end c t ≡ ok r
      → Kept n (c, t) r
  unfolding sm_interpolation_data
  sm_kept n g start end c t r e =
      let count = total start end g.interval in
      let goal = Kept n (c, t) r in
      sampled_then n g count start end false c.dummy_ip goal e λ w0 h0 f0.
        sampled_then n g count start end false c.dummy_zx1 goal f0 λ w1 h1 f1.
          sampled_then n g count start end false c.dummy_ivs1 goal f1
            λ w2 h2 f2. subst (Kept n (c, t)) (ok-injective f2) ((refl, refl), λ h. h)

  when_kept :
      (n : ℕ) (b : Bool) (f : Config → Targets → Result (Config × Targets)) (a r : Config × Targets)
      → ((c : Config) (t : Targets) (r : Config × Targets) → f c t ≡ ok r → Kept n (c, t) r)
      → when b f a ≡ ok r
      → Kept n a r
  when_kept n true f (c, t) r keeps e = keeps c t r e
  when_kept n false f a r keeps e = subst (Kept n a) (ok-injective e) ((refl, refl), λ h. h)

  -- With both algorithms, the arrays of each have as many elements as the times give.
  pub interpolate_sampled :
      (n : ℕ) (mask : AlgMask) (g : Grid) (c : Config) (t : Targets) (r : Config × Targets)
      → mask.cc ≡ true
      → mask.lm ≡ true
      → interpolate mask g c t ≡ ok r
      → SameWindow c r.0 × (total c.vs1_st c.vs1_et g.interval ≡ pos n → AllSampled n r.1)
  unfolding interpolate
  interpolate_sampled n mask g c t r cc_on lm_on e =
      let start = c.vs1_st in
      let end = c.vs1_et in
      let goal = SameWindow c r.0 × (total start end g.interval ≡ pos n → AllSampled n r.1) in
      step_then (cc_interpolation_data g start end c t) goal (rw lm_on at (rw cc_on at e))
        λ a ea fa. step_then (lm_interpolation_data g a.0 a.1) goal fa λ b eb fb.
          step_then (when mask.ip (ip_interpolation_data g start end) b) goal fb λ d ed fd.
            step_then (when mask.fd (fd_interpolation_data g start end) d) goal fd λ u eu fu.
              let (wa, ha) = cc_sampled n g start end c t a ea in
              let (wb, hb) = lm_sampled n g a.0 a.1 b eb in
              let kd =
                when_kept n mask.ip (ip_interpolation_data g start end) b d (ip_kept n g start end)
                  ed in
              let ku =
                when_kept n mask.fd (fd_interpolation_data g start end) d u (fd_kept n g start end)
                  eu in
              let kr =
                when_kept n mask.sm (sm_interpolation_data g start end) u r (sm_kept n g start end)
                  fu in
              let (wr, hr) = Kept-trans n b u r (Kept-trans n b d u kd ku) kr in
              (
                (wr.0 ∙ wb.0 ∙ wa.0, wr.1 ∙ wb.1 ∙ wa.1),
                λ count. hr (hb (rw wa.0 (rw wa.1 count)) (ha count)),
              )
