-- ===== src/Vs/Linear/Reads.antt =====
-- Copies of the vertices, and the read past their end in `linear` of vscontrol.h.
use daux4pcs2m.Base.{
  ℕ, zero, suc, ◌+◌, ◌-◌, Bool, true, false, List, [], ◌∷◌, ◌≡◌, inl, inr, refl, length, arith,
  Bool-cases,
}
use daux4pcs2m.Base.Int.{ℤ}
use daux4pcs2m.Real.{Ieee, Float, ◌≺◌}
use daux4pcs2m.Memory.Result.{ok, err, out_of_bounds}
use daux4pcs2m.Memory.Buffer.{Buffer, live, read_list}
use daux4pcs2m.Vs.State.{Point}
use daux4pcs2m.Vs.Linear.{copy, point, extend_start, extend_end, linear, resample, reshape}

module _ ⦃m : Ieee⦄ where
  copy-cons :
      (p : Point) (vs : List Point) (i j n : ℕ) → j ≡ suc i → copy (p ∷ vs) j n ≡ copy vs i n
  unfolding copy
  copy-cons p vs i j zero e = refl
  copy-cons p vs i j (suc n) e = rw e (rw (copy-cons p vs (i + 1) (suc i + 1) n (omega arith)))

  pub copy_all : (vs : List Point) (n : ℕ) → n ≡ length vs → copy vs 0 n ≡ ok vs
  unfolding copy
  copy_all [] zero e = refl
  copy_all [] (suc n) e = absurd (omega arith)
  copy_all (p ∷ vs) zero e = absurd (omega arith)
  copy_all (p ∷ vs) (suc n) e =
      rw (copy-cons p vs 0 (0 + 1) n refl) (rw (copy_all vs n (omega arith)))

  read_end : (vs : List Point) → read_list vs (length vs) ≡ err out_of_bounds
  read_end [] = refl
  read_end (p ∷ vs) = read_end vs

  extend_end_fails :
      (vs : List Point) (last : Point) (moved : Bool) (end : Float)
      → read_list vs (length vs - 1) ≡ ok last
      → (last.x ≺ end) ≡ true
      → extend_end end (record { vertices = vs; len = length vs; moved = moved })
        ≡ err out_of_bounds
  unfolding extend_end
  extend_end_fails vs last moved end r late =
      rw r (rw late (rw (copy_all vs (length vs) refl) (rw (read_end vs))))

  extend_end_extended :
      (p last : Point) (vs : List Point) (start end : Float)
      → read_list vs (length vs - 1) ≡ ok last
      → (last.x ≺ end) ≡ true
      → extend_end end
          (record { vertices = point start p.y ∷ vs; len = length vs + 1; moved = true })
        ≡ err out_of_bounds
  extend_end_extended p last [] start end r late = cc
  extend_end_extended p last (v ∷ vs) start end r late =
      let grown : length (v ∷ vs) + 1 ≡ suc (length (v ∷ vs)) = omega arith in
      rw grown (extend_end_fails (point start p.y ∷ v ∷ vs) last true end shifted late)
    where
      before : suc (suc (length vs)) - 1 ≡ suc (length vs)
      before = omega arith

      before' : suc (length vs) - 1 ≡ length vs
      before' = omega arith

      shifted : read_list (point start p.y ∷ v ∷ vs) (suc (suc (length vs)) - 1) ≡ ok last
      shifted = rw before (rw before' at r)

  -- A waveform whose last vertex lies before the end time, and which does not end before the start
  -- time, is never sampled: `vertics[*len]` is read past the end of the array, whether or not the
  -- start was extended first, whatever the cycle, the data array and the kind of waveform are.
  pub linear_past_end :
      (fuel : ℕ) (total : ℤ) (dx : Float) (vs : List Point) (first last : Point) (start end : Float)
      (samples : Buffer Float) (step : Bool)
      → read_list vs 0 ≡ ok first
      → read_list vs (length vs - 1) ≡ ok last
      → (end ≺ first.x) ≡ false
      → (last.x ≺ start) ≡ false
      → (last.x ≺ end) ≡ true
      → linear fuel total dx (record { points = live vs; len = length vs }) start end samples step
        ≡ err out_of_bounds
  unfolding linear resample reshape extend_start
  linear_past_end fuel total dx vs first last start end samples step r l before after late =
      elim (Bool-cases (start ≺ first.x)) [
        | inl early ↦ simp (
          r,
          l,
          before,
          after,
          early,
          copy_all vs (length vs) refl,
          extend_end_extended first last vs start end l late,
        )
        | inr inside ↦ simp (r, l, before, after, inside, extend_end_fails vs last false end l late)
      ]
