-- ===== src/Filter/Laws.antt =====
-- What the low pass filter of low_pass_filter.h returns and remembers.
use daux4pcs2m.Base.{List, [], ◌∷◌, map, ◌≡◌, ◌≢◌, true, false, refl, ap, arith}
use daux4pcs2m.Real.{Ieee, IsNormal, Float, ◌≈◌, nought}
use daux4pcs2m.Filter.{Lpf, low_pass_filter, filter_all}

module _ ⦃m : Ieee⦄ where
  pub low_pass_filter_first :
      (value tau time : Float) (s : Lpf)
      → IsNormal m
      → s.init_cycle ≡ 1
      → low_pass_filter value tau time s
        ≡ (value, record s { vlast = value; elast = value; tlast = time })
  unfolding low_pass_filter
  low_pass_filter_first value tau time s n e = ground (arith, n.nought_eq)

  -- As long as `limited_init_cycle` is 1 the filter passes every value through unchanged, whatever
  -- the time constants and the times of the calls are, and the flag is still 1 after the last call,
  -- if zero is equal to itself.
  pub filter_all_pass :
      (calls : List (Float × Float × Float)) (s : Lpf)
      → IsNormal m
      → s.init_cycle ≡ 1
      → ((filter_all calls s).0 ≡ map (λ c. c.0) calls) × ((filter_all calls s).1.init_cycle ≡ 1)
  unfolding filter_all
  filter_all_pass [] s n e = (refl, e)
  filter_all_pass ((value, tau, time) ∷ rest) s n e =
      let first = low_pass_filter_first value tau time s n e in
      let ih = filter_all_pass rest (record s { vlast = value; elast = value; tlast = time }) n e in
      rw first (ap (λ vs. value ∷ vs) ih.0, ih.1)

  -- A second call at the time of the first returns the same value and changes nothing, whatever its
  -- value and time constant are, once `limited_init_cycle` is not 1, for a time that is a number
  -- (equal to itself) and not zero.
  pub low_pass_filter_repeat :
      (value tau value' tau' time : Float) (s : Lpf)
      → s.init_cycle ≢ 1
      → (time ≈ time) ≡ true
      → (time ≈ nought) ≡ false
      → let first = low_pass_filter value tau time s in
        low_pass_filter value' tau' time first.1 ≡ first
  unfolding low_pass_filter
  low_pass_filter_repeat value tau value' tau' time s ready number running = ground arith
