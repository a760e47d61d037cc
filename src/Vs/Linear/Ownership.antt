-- ===== src/Vs/Linear/Ownership.antt =====
-- Whether the caller of `linear` of vscontrol.h still owns its vertices afterwards.
use daux4pcs2m.Base.{
  ℕ, ◌-◌, Bool, true, false, ◌||◌, List, ◌≡◌, inl, inr, length, arith, Bool-cases, sym, ◌∙◌,
}
use daux4pcs2m.Base.Int.{ℤ}
use daux4pcs2m.Real.{Ieee, Float, ◌≺◌}
use daux4pcs2m.Memory.Result.{ok, err, double_free, >>=-eq-ok, ◌>>=◌}
use daux4pcs2m.Memory.Buffer.{Buffer, live, freed, free, read_list}
use daux4pcs2m.Vs.State.{Point, Wave}
use daux4pcs2m.Vs.Linear.{
  extend_start, extend_end, trim_start, trim_end, linear, resample, reshape, Span, Sampled, span,
}
use daux4pcs2m.Vs.Linear.Reads.{linear_past_end}

module _ ⦃m : Ieee⦄ where
  abbrev HasMoved : Span → Type 0
  HasMoved s = s.moved ≡ true

  extend_end-HasMoved :
      (end : Float) (s t : Span) → extend_end end s ≡ ok t → HasMoved s → HasMoved t
  unfolding extend_end
  extend_end-HasMoved end s t e h = ground arith

  trim_start-HasMoved :
      (step : Bool) (start : Float) (s t : Span)
      → trim_start step start s ≡ ok t
      → HasMoved s
      → HasMoved t
  unfolding trim_start
  trim_start-HasMoved step start s t e h = ground arith

  trim_end-HasMoved :
      (step : Bool) (end : Float) (s t : Span)
      → trim_end step end s ≡ ok t
      → HasMoved s
      → HasMoved t
  unfolding trim_end
  trim_end-HasMoved step end s t e h = ground arith

  extend_start_moves :
      (start : Float) (s t : Span) (p : Point)
      → extend_start start s ≡ ok t
      → read_list s.vertices 0 ≡ ok p
      → (start ≺ p.x) ≡ true
      → HasMoved t
  unfolding extend_start
  extend_start_moves start s t p e r h = ground arith

  trim_start_moves :
      (step : Bool) (start : Float) (s t : Span) (p : Point)
      → trim_start step start s ≡ ok t
      → read_list s.vertices 0 ≡ ok p
      → (p.x ≺ start) ≡ true
      → HasMoved t
  unfolding trim_start
  trim_start_moves step start s t p e r h = ground arith

  trim_end_moves :
      (step : Bool) (end : Float) (s t : Span) (p : Point)
      → trim_end step end s ≡ ok t
      → read_list s.vertices (s.len - 1) ≡ ok p
      → (end ≺ p.x) ≡ true
      → HasMoved t
  unfolding trim_end
  trim_end_moves step end s t p e r h = ground arith

  -- A vertex at the start time, or the last one at the end time, is no reason to move.
  module _ (s : Span) (first last : Point) (start end : Float)
      (r : read_list s.vertices 0 ≡ ok first) (l : read_list s.vertices (s.len - 1) ≡ ok last) where
    extend_start_stays : (start ≺ first.x) ≡ false → extend_start start s ≡ ok s
    unfolding extend_start
    extend_start_stays h = simp (r, h)

    extend_end_stays : (last.x ≺ end) ≡ false → extend_end end s ≡ ok s
    unfolding extend_end
    extend_end_stays h = simp (l, h)

    trim_start_stays : (step : Bool) → (first.x ≺ start) ≡ false → trim_start step start s ≡ ok s
    unfolding trim_start
    trim_start_stays step h = simp (r, h)

    trim_end_stays : (step : Bool) → (end ≺ last.x) ≡ false → trim_end step end s ≡ ok s
    unfolding trim_end
    trim_end_stays step h = simp (l, h)

    trims_move :
        (step : Bool) (t : Span)
        → (first.x ≺ start || end ≺ last.x) ≡ true
        → (trim_start step start s >>= trim_end step end) ≡ ok t
        → HasMoved t
    trims_move step t cut e = elim (Bool-cases (first.x ≺ start)) [
      | inl late ↦
          let (s3, e3, f3) = >>=-eq-ok _ _ e in
          trim_end-HasMoved step end s3 t f3 (trim_start_moves step start s s3 first e3 r late)
      | inr there ↦
          trim_end_moves step end s t last (rw (trim_start_stays step there) at e) l
            (rw there at cut)
    ]

    reshape_moves :
        (step : Bool) (t : Span)
        → (last.x ≺ end) ≡ false
        → (start ≺ first.x || first.x ≺ start || end ≺ last.x) ≡ true
        → reshape step start end s ≡ ok t
        → HasMoved t
    unfolding reshape
    reshape_moves step t late cut e = elim (Bool-cases (start ≺ first.x)) [
      | inl early ↦
          let (s1, e1, f1) = >>=-eq-ok _ _ e in
          let (s2, e2, f2) = >>=-eq-ok _ _ f1 in
          let (s3, e3, f3) = >>=-eq-ok _ _ f2 in
          trim_end-HasMoved step end s3 t f3 (
            trim_start-HasMoved step start s2 s3 e3
              (extend_end-HasMoved end s1 s2 e2 (extend_start_moves start s s1 first e1 r early)))
      | inr there ↦
          let first_two = rw (extend_start_stays there) at e in
          trims_move step t (rw there at cut) (rw (extend_end_stays late) at first_two)
    ]

    pub reshape_stays :
        (step : Bool)
        → (last.x ≺ end) ≡ false
        → (start ≺ first.x) ≡ false
        → (first.x ≺ start) ≡ false
        → (end ≺ last.x) ≡ false
        → reshape step start end s ≡ ok s
    unfolding reshape
    reshape_stays step late a b c = simp (
      extend_start_stays a,
      extend_end_stays late,
      trim_start_stays step b,
      trim_end_stays step c,
    )

  resample_frees :
      (fuel : ℕ) (dx : Float) (w : Wave) (vs : List Point) (start end : Float)
      (samples : Buffer Float) (step : Bool) (out : Sampled) (first last : Point)
      → read_list vs 0 ≡ ok first
      → read_list vs (w.len - 1) ≡ ok last
      → (last.x ≺ end) ≡ false
      → (start ≺ first.x || first.x ≺ start || end ≺ last.x) ≡ true
      → resample fuel dx w vs start end samples step ≡ ok out
      → out.wave.points ≡ freed
  unfolding resample
  resample_frees fuel dx w vs start end samples step out first last r l late cut e =
      let (s4, e4, f4) = >>=-eq-ok _ _ e in
      let moved = reshape_moves (span w vs) first last start end r l step s4 late cut e4 in
      ground arith

  pub linear_inside :
      (fuel : ℕ) (total : ℤ) (dx : Float) (vs : List Point) (first last : Point) (start end : Float)
      (samples : Buffer Float) (step : Bool)
      → read_list vs 0 ≡ ok first
      → read_list vs (length vs - 1) ≡ ok last
      → (end ≺ first.x) ≡ false
      → (last.x ≺ start) ≡ false
      → let w : Wave = record { points = live vs; len = length vs } in
        linear fuel total dx w start end samples step ≡ resample fuel dx w vs start end samples step
  unfolding linear
  linear_inside fuel total dx vs first last start end samples step r l before after =
      simp (r, l, before, after)

  -- Once `linear` has cut a waveform to the start and end time, or extended it to the start time,
  -- the array that the caller's pointer names is freed, and freeing it again is an error. So it is
  -- whenever the first vertex is not at the start time or the last one lies after the end time, for
  -- a waveform that lies neither wholly after nor wholly before the two times, if `linear` succeeds.
  pub linear_frees :
      (fuel : ℕ) (total : ℤ) (dx : Float) (vs : List Point) (first last : Point) (start end : Float)
      (samples : Buffer Float) (step : Bool) (out : Sampled)
      → read_list vs 0 ≡ ok first
      → read_list vs (length vs - 1) ≡ ok last
      → (end ≺ first.x) ≡ false
      → (last.x ≺ start) ≡ false
      → (start ≺ first.x || first.x ≺ start || end ≺ last.x) ≡ true
      → linear fuel total dx (record { points = live vs; len = length vs }) start end samples step
        ≡ ok out
      → (out.wave.points ≡ freed) × (free out.wave.points ≡ err double_free)
  unfolding free
  linear_frees fuel total dx vs first last start end samples step out r l before after cut e =
      elim (Bool-cases (last.x ≺ end)) [
        | inl short ↦
            let overread =
              linear_past_end fuel total dx vs first last start end samples step r l before after
                short in
            cc
        | inr long ↦
            let w : Wave = record { points = live vs; len = length vs } in
            let inside = linear_inside fuel total dx vs first last start end samples step in
            let points =
              resample_frees fuel dx w vs start end samples step out first last r l long cut
                (sym (inside r l before after) ∙ e) in
            (points, rw points)
      ]
