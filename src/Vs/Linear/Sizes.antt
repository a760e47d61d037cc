-- ===== src/Vs/Linear/Sizes.antt =====
-- `linear` of vscontrol.h writes into the array that it is given and keeps its size.
use daux4pcs2m.Base.{
  ap, sym, ◌∙◌, ◌+◌, ℕ, zero, suc, ◌+◌, ◌-◌, ◌==◌, Bool, false, List, ◌≡◌, refl, arith, Bool-cases,
  inl, inr, if◌then◌else◌,
}
use daux4pcs2m.Base.Int.{ℤ, pos_part}
use daux4pcs2m.Real.{Ieee, Float, Dbl, ◌⊟◌, ◌◁◌, ◌⊞◌, ◌≺◌, ◌⊖◌, ◌⊗◌, nought}
use daux4pcs2m.Memory.Result.{ok, ◌>>=◌, >>=-eq-ok, ok-injective}
use daux4pcs2m.Memory.Buffer.{Buffer, HasSize, HasSize-write, write, read_list, contents}
use daux4pcs2m.Vs.State.{Point, Wave}
use daux4pcs2m.Vs.Linear.{
  sample_stage, sample_stages, Sampling, Sampled, fill, resample, reshape, linear, value_at, slope,
  span,
}

module _ ⦃m : Ieee⦄ where
  open m use {widen, lit, neg}

  sample_stage-HasSize :
      (n fuel : ℕ) (dx k b end : Float) (time : Dbl) (st : Sampling) (r : Dbl × Sampling)
      → HasSize n st.samples
      → sample_stage fuel dx k b end time st ≡ ok r
      → HasSize n r.1.samples
  unfolding sample_stage
  sample_stage-HasSize n zero dx k b end time st r h e = cc
  sample_stage-HasSize n (suc fuel) dx k b end time st r h e =
      elim (Bool-cases (time ◁ widen end)) [
        | inl early ↦ elim (Bool-cases ((time ⊟ st.lastt) ◁ lit 1 6)) [
          | inl close ↦
              let skipped : sample_stage (suc fuel) dx k b end time st
                  ≡ sample_stage fuel dx k b end (time ⊞ widen dx) st =
                rw (early, sample_stage) (rw (close, sample_stage) refl) in
              sample_stage-HasSize n fuel dx k b end (time ⊞ widen dx) st r h (sym skipped ∙ e)
          | inr apart ↦
              let y = value_at k b time in
              let next : Buffer Float → Sampling =
                λ samples. record { i = st.i + 1; lastt = time; samples = samples } in
              let taken : sample_stage (suc fuel) dx k b end time st ≡ (
                  write st.samples st.i y >>= λ samples.
                  sample_stage fuel dx k b end (time ⊞ widen dx) (next samples)) =
                rw (early, sample_stage) (rw (apart, sample_stage) refl) in
              let (samples, w, later) = >>=-eq-ok (write st.samples st.i y) _ (sym taken ∙ e) in
              sample_stage-HasSize n fuel dx k b end (time ⊞ widen dx) (next samples) r
                (HasSize-write st.samples n st.i y w h) later
        ]
        | inr over ↦
            let ended : sample_stage (suc fuel) dx k b end time st ≡ ok (time, st) =
              rw (over, sample_stage) refl in
            rw (ap (λ x. x.1.samples) (ok-injective (sym ended ∙ e))) at h
      ]

  sample_stages-HasSize :
      (n fuel : ℕ) (step : Bool) (dx : Float) (vs : List Point) (left s : ℕ) (st r : Sampling)
      → HasSize n st.samples
      → sample_stages fuel step dx vs left s st ≡ ok r
      → HasSize n r.samples
  unfolding sample_stages
  sample_stages-HasSize n fuel step dx vs zero s st r h e =
      rw (ap (λ x. x.samples) (ok-injective e)) at h
  sample_stages-HasSize n fuel step dx vs (suc left) s st r h e =
      let (p, ep, fp) = >>=-eq-ok (read_list vs s) _ e in
      let (q, eq, fq) = >>=-eq-ok (read_list vs (s + 1)) _ fp in
      let k = if step then nought else slope p q in
      let b = if step then p.y else p.y ⊖ k ⊗ p.x in
      let (t, et, ft) = >>=-eq-ok (sample_stage fuel dx k b q.x (widen p.x) st) _ fq in
      let (samples, es, fs) = >>=-eq-ok _ _ ft in
      let kept = sample_stage-HasSize n fuel dx k b q.x (widen p.x) st t h et in
      sample_stages-HasSize n fuel step dx vs left (s + 1) _ r
        (last_point n left t.1 (value_at k b t.0) samples kept es) fs
    where
      last_point :
          (n left : ℕ) (st : Sampling) (y : Float) (samples : Buffer Float)
          → HasSize n st.samples
          → (if left == 0 then write st.samples st.i y else ok st.samples) ≡ ok samples
          → HasSize n samples
      last_point n zero st y samples h e = HasSize-write st.samples n st.i y e h
      last_point n (suc left) st y samples h e =
          let inner : (suc left == 0) ≡ false = ground arith in
          let kept : st.samples ≡ samples = ok-injective (rw inner at e) in rw kept at h

  fill-HasSize :
      (n left i : ℕ) (y : Float) (b c : Buffer Float)
      → HasSize n b
      → fill left i y b ≡ ok c
      → HasSize n c
  unfolding fill
  fill-HasSize n zero i y b c h e = rw (ok-injective e) at h
  fill-HasSize n (suc left) i y b c h e =
      let (b', e', later) = >>=-eq-ok (write b i y) _ e in
      fill-HasSize n left (i + 1) y b' c (HasSize-write b n i y e' h) later

  resample-HasSize :
      (n fuel : ℕ) (dx : Float) (w : Wave) (vs : List Point) (start end : Float)
      (samples : Buffer Float) (step : Bool) (r : Sampled)
      → HasSize n samples
      → resample fuel dx w vs start end samples step ≡ ok r
      → HasSize n r.samples
  unfolding resample
  resample-HasSize n fuel dx w vs start end samples step r h e =
      let (s4, e4, f4) = >>=-eq-ok (reshape step start end (span w vs)) _ e in
      let (st, es, fs) = >>=-eq-ok (sample_stages fuel step dx s4.vertices (s4.len - 1) 0 _) _ f4 in
      rw (ap (λ x. x.samples) (ok-injective fs)) at
        (sample_stages-HasSize n fuel step dx s4.vertices (s4.len - 1) 0 _ st h es)

  -- Whatever the waveform and the times are, the array of the samples keeps its size.
  pub linear-HasSize :
      (n fuel : ℕ) (total : ℤ) (dx : Float) (w : Wave) (start end : Float) (samples : Buffer Float)
      (step : Bool) (r : Sampled)
      → HasSize n samples
      → linear fuel total dx w start end samples step ≡ ok r
      → HasSize n r.samples
  unfolding linear
  linear-HasSize n fuel total dx w start end samples step r h e =
      let (vs, ev, fv) = >>=-eq-ok (contents w.points) _ e in
      let (first, ef, ff) = >>=-eq-ok (read_list vs 0) _ fv in
      elim (Bool-cases (end ≺ first.x)) [
        | inl late ↦ filled first.y (rw late at ff)
        | inr there ↦
            let inside = rw there at ff in
            let (last, el, fl) = >>=-eq-ok (read_list vs (w.len - 1)) _ inside in
            elim (Bool-cases (last.x ≺ start)) [
              | inl early ↦ filled last.y (rw early at fl)
              | inr within ↦
                  resample-HasSize n fuel dx w vs start end samples step r h (rw within at fl)
            ]
      ]
    where
      filled :
          (y : Float)
          → (fill (pos_part total) 0 y samples >>= λ out.
              ok (record { wave = w; samples = out; count = total }))
            ≡ ok r
          → HasSize n r.samples
      filled y e =
          let (out, eo, fo) = >>=-eq-ok (fill (pos_part total) 0 y samples) _ e in
          rw (ap (λ x. x.samples) (ok-injective fo)) at
            (fill-HasSize n (pos_part total) 0 y samples out h eo)
