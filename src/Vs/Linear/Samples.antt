-- ===== src/Vs/Linear/Samples.antt =====
-- What `linear` of vscontrol.h writes for a straight line from the start to the end time.
use daux4pcs2m.Base.{
  overwrite, length-overwrite, ℕ, zero, suc, ◌+◌, ◌≤◌, ◌<◌, Bool, true, false, List, [], ◌∷◌, ◌≡◌,
  refl, length, set, arith, if◌then◌else◌, length-set, ◌∙◌,
}
use daux4pcs2m.Base.Int.{ℤ, pos}
use daux4pcs2m.Real.{Ieee, Float, Dbl, ◌⊖◌, ◌⊗◌, ◌≺◌, ◌⊞◌, ◌⊟◌, ◌◁◌, nought}
use daux4pcs2m.Memory.Result.{ok, err, out_of_bounds, ◌>>=◌}
use daux4pcs2m.Memory.Buffer.{live, write, write_beyond, write_live}
use daux4pcs2m.Vs.State.{Point, Wave}
use daux4pcs2m.Vs.Linear.{
  linear, resample, slope, value_at, sample_stage, sample_stages, Sampling, span,
}
use daux4pcs2m.Vs.Linear.Ownership.{linear_inside, reshape_stays}

module _ ⦃m : Ieee⦄ where
  open m use {widen, narrow, lit, neg}

  -- `time` after `n` rounds of `time += dx`.
  abbrev pub time_at : Float → Dbl → ℕ → Dbl
  time_at dx time zero = time
  time_at dx time (suc n) = time_at dx (time ⊞ widen dx) n

  -- The times of `n` rounds from `time` on lie before `end`, each at least 1.0e-6 after the one
  -- before, and the next one does not lie before `end`.
  abbrev pub Ticks : Float → Float → ℕ → Dbl → Dbl → Type 0
  Ticks dx end zero time lastt = (time ◁ widen end) ≡ false
  Ticks dx end (suc n) time lastt =
      ((time ◁ widen end) ≡ true)
      × (((time ⊟ lastt) ◁ lit 1 6) ≡ false)
      × Ticks dx end n (time ⊞ widen dx) time

  -- The values of the line `k * time + b` at `n` times.
  abbrev pub line_values : Float → Float → Float → Dbl → ℕ → List Float
  line_values k b dx time zero = []
  line_values k b dx time (suc n) = value_at k b time ∷ line_values k b dx (time ⊞ widen dx) n

  module _ (dx k b end : Float) where
    -- Where the last sample was taken, after `n` rounds.
    abbrev last_of : Dbl → Dbl → ℕ → Dbl
    last_of time lastt zero = lastt
    last_of time lastt (suc n) = last_of (time ⊞ widen dx) time n

    sample_stage_fits :
        (n fuel i : ℕ) (time lastt : Dbl) (xs : List Float)
        → n < fuel
        → Ticks dx end n time lastt
        → i + n ≤ length xs
        → sample_stage fuel dx k b end time (record { i = i; lastt = lastt; samples = live xs })
          ≡ ok (
            time_at dx time n,
            record {
              i = i + n;
              lastt = last_of time lastt n;
              samples = live (overwrite xs i (line_values k b dx time n));
            },
          )
    unfolding sample_stage
    sample_stage_fits zero zero i time lastt xs h ticks fits = elim h [ ]
    sample_stage_fits (suc n) zero i time lastt xs h ticks fits = elim h [ ]
    sample_stage_fits zero (suc fuel) i time lastt xs h ticks fits =
        let same : i + 0 ≡ i = omega arith in rw (ticks, sample_stage) (rw same)
    sample_stage_fits (suc n) (suc fuel) i time lastt xs h (early, apart, ticks) fits =
        let moved : i + suc n ≡ i + 1 + n = omega arith in
        let shorter : i + 1 + n ≤ length (set xs i (value_at k b time)) =
          omega (arith, length-set xs i (value_at k b time)) in
        rw (early, sample_stage)
          (rw (apart, sample_stage)
            (rw (write_live xs i (value_at k b time) (omega arith)) (
              rw moved (
                sample_stage_fits n fuel (i + 1) (time ⊞ widen dx) time
                  (set xs i (value_at k b time)) (omega arith) ticks shorter))))

    -- The end point is the value after the last round.
    set-overwrite :
        (n i j : ℕ) (time : Dbl) (xs : List Float)
        → i + n ≡ j
        → set (overwrite xs i (line_values k b dx time n)) j (value_at k b (time_at dx time n))
          ≡ overwrite xs i (line_values k b dx time (suc n))
    set-overwrite zero i j time xs e = let e' : j ≡ i = omega arith in rw e'
    set-overwrite (suc n) i j time xs e =
        set-overwrite n (i + 1) j (time ⊞ widen dx) (set xs i (value_at k b time)) (omega arith)

  -- One stage, which is the last: `n` rounds and the end point.
  module _ (p q : Point) (n fuel : ℕ) (dx : Float) (step : Bool) (xs : List Float)
      (enough : n < fuel) (ticks : Ticks dx q.x n (widen p.x) (neg (lit 10086 0))) where
    abbrev rate : Float
    rate = if step then nought else slope p q

    abbrev base : Float
    base = if step then p.y else p.y ⊖ rate ⊗ p.x

    abbrev began : Sampling
    began = record { i = 0; lastt = neg (lit 10086 0); samples = live xs }

    one_stage :
        n ≤ length xs
        → sample_stages fuel step dx (p ∷ q ∷ []) 1 0 began ≡ (
            write
              (live (overwrite xs 0 (line_values rate base dx (widen p.x) n)))
              (0 + n)
              (value_at rate base (time_at dx (widen p.x) n))
            >>= λ samples. ok (record {
              i = 0 + n;
              lastt = last_of dx rate base q.x (widen p.x) (neg (lit 10086 0)) n;
              samples = samples;
            }))
    unfolding sample_stages
    one_stage fits = rw (
        sample_stage_fits dx rate base q.x n fuel 0 (widen p.x) (neg (lit 10086 0)) xs enough ticks
          (omega arith))

    abbrev line : Wave
    line = record { points = live (p ∷ q ∷ []); len = 2 }

    module _ (total : ℤ) (start end : Float) (not_after : (end ≺ p.x) ≡ false)
        (not_before : (q.x ≺ start) ≡ false) (start_ge : (start ≺ p.x) ≡ false)
        (start_le : (p.x ≺ start) ≡ false) (end_ge : (end ≺ q.x) ≡ false)
        (end_le : (q.x ≺ end) ≡ false) where
      to_stage : linear fuel total dx line start end (live xs) step ≡ (
          sample_stages fuel step dx (p ∷ q ∷ []) 1 0 began >>= λ st.
          ok (record { wave = line; samples = st.samples; count = pos (st.i + 1) }))
      unfolding resample
      to_stage =
          let vs : List Point = p ∷ q ∷ [] in
          rw
            (linear_inside fuel total dx vs p q start end (live xs) step refl refl not_after
              not_before)
            (rw (
              reshape_stays (span line vs) p q start end refl refl step end_le start_ge start_le
                end_ge))

      -- On a straight line from exactly the start to exactly the end time, with `n` ticks of the
      -- cycle before the end, an array of more than `n` elements gets the values of the line at the
      -- start, after each tick and after the last one, so `n + 1` in all, and keeps the others; the
      -- count `n + 1` is returned, and the caller's vertices are untouched.
      pub linear_samples :
          n < length xs
          → linear fuel total dx line start end (live xs) step
            ≡ ok (record {
              wave = line;
              samples = live (overwrite xs 0 (line_values rate base dx (widen p.x) (suc n)));
              count = pos (n + 1);
            })
      linear_samples fits =
          let before = overwrite xs 0 (line_values rate base dx (widen p.x) n) in
          let room : n < length before =
            omega (arith, length-overwrite xs 0 (line_values rate base dx (widen p.x) n)) in
          let plain : 0 + n ≡ n = omega arith in
          rw to_stage (
            rw (one_stage (omega arith)) (
              rw plain (
                rw (write_live before n (value_at rate base (time_at dx (widen p.x) n)) room)
                  (rw (set-overwrite dx rate base q.x n 0 n (widen p.x) xs (omega arith))))))

      -- On a straight line from exactly the start to exactly the end time, with `n` ticks of the
      -- cycle before the end, the end point is written past the end of an array of exactly `n`
      -- elements.
      pub linear_overflows :
          length xs ≡ n → linear fuel total dx line start end (live xs) step ≡ err out_of_bounds
      linear_overflows full =
          let values = line_values rate base dx (widen p.x) n in
          let size = length-overwrite xs 0 values in
          rw to_stage (
            rw (one_stage (omega arith)) (
              rw (
                write_beyond (live (overwrite xs 0 values)) n (0 + n)
                  (value_at rate base (time_at dx (widen p.x) n)) (size ∙ full) (omega arith))))
