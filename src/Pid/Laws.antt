-- ===== src/Pid/Laws.antt =====
-- What the PID step of pidv4_cal.h returns and remembers.
use daux4pcs2m.Base.{ℕ, true, false, List, [], ◌∷◌, ◌≡◌, ◌≢◌, refl, arith, Bool-cases, inl, inr}
use daux4pcs2m.Real.{
  Ieee, IsNormal, Float, ◌≈◌, nought, zero_lit, flush, IsFlushed, flush-IsFlushed,
}
use daux4pcs2m.Pid.{
  Scratch, Gains, pid_element, store_shape, element_round, element_rounds, pidv4, seed, terms,
  advance, integrate,
}
use daux4pcs2m.Memory.Result.{ok}
use daux4pcs2m.Memory.Buffer.{live, read, write}

module _ ⦃m : Ieee⦄ where
  open m use {widen, lit}

  -- A call with `calculate` zero forgets the past: its output, its terms and the memory that it
  -- leaves do not depend on the memory before, if zero is equal to itself.
  pub pid_element_forgets :
      (time : Float) (g : Gains) (use_gi : ℕ) (error : Float) (s s' : Scratch)
      → IsNormal m
      → pid_element time g 0 use_gi error s ≡ pid_element time g 0 use_gi error s'
  unfolding pid_element seed
  pid_element_forgets time g use_gi error s s' n = rw n.nought_eq

  -- A second call at the time of the first gives the same output and terms and changes nothing,
  -- whatever its error, its mode of integration and its time constants are, for the same gains, if
  -- `calculate` is not zero and the time is a number (equal to itself) and not zero.
  pub pid_element_repeat :
      (time : Float) (g g' : Gains) (calculate calculate' use_gi use_gi' : ℕ) (error error' : Float)
      (s : Scratch)
      → calculate' ≢ 0
      → (time ≈ time) ≡ true
      → (time ≈ nought) ≡ false
      → g'.gp ≡ g.gp
      → g'.gd ≡ g.gd
      → g'.gi ≡ g.gi
      → let first = pid_element time g calculate use_gi error s in
        pid_element time g' calculate' use_gi' error' first.2 ≡ first
  unfolding pid_element seed terms advance
  pid_element_repeat time g g' calculate calculate' use_gi use_gi' error error' s c number running p
        d i =
      ground arith

  -- The derivative and the integral memory are clear of the range that is rounded to zero.
  pub record IsClear (s : Scratch) : Type 0 where
    pub dlast_clear : IsFlushed s.dlast
    pub ilast_clear : IsFlushed s.ilast

  integrate-IsFlushed :
      (gi : Float) (use_gi : ℕ) (qqi vout : Float) (s : Scratch)
      → IsClear s
      → IsFlushed (integrate gi use_gi qqi vout s)
  unfolding integrate flush
  integrate-IsFlushed gi use_gi qqi vout s c small = ground arith

  seed-IsClear :
      (calculate : ℕ) (time error : Float) (s : Scratch)
      → IsClear s
      → IsClear (seed calculate time error s)
  unfolding seed
  seed-IsClear calculate time error s c =
      let cleared : IsFlushed zero_lit = λ _. refl in ground (arith, cleared)

  terms-IsClear :
      (time : Float) (use_gi : ℕ) (error : Float) (g : Gains) (s : Scratch)
      → IsClear s
      → IsClear (terms time use_gi error g s).1
  unfolding terms advance
  terms-IsClear time use_gi error g s c = elim (Bool-cases (time ≈ s.tlast)) [
    | inl same ↦ rw same c
    | inr later ↦
        rw later (record {
          dlast_clear = flush-IsFlushed _;
          ilast_clear = integrate-IsFlushed _ _ _ _ s c;
        })
  ]

  -- Every call keeps the derivative and the integral memory clear of values below 1.0e-35 other
  -- than zero, in each mode and on each branch.
  pub pid_element-IsClear :
      (time : Float) (g : Gains) (calculate use_gi : ℕ) (error : Float) (s : Scratch)
      → IsClear s
      → IsClear (pid_element time g calculate use_gi error s).2
  unfolding pid_element
  pid_element-IsClear time g calculate use_gi error s c =
      terms-IsClear time use_gi error g _ (seed-IsClear calculate time error s c)

  -- The call of `pidv4` in the limited algorithm: one element, an array of three for `shape`, and
  -- pointers into the arrays of the shot.
  pub pidv4_one :
      (time : Float) (g : Gains) (c u : ℕ) (p error x y z : Float) (ps es : List Float)
      (s : Scratch)
      → let (out, t, s') = pid_element time g c u error s in
        pidv4 1 time g (record {
          calculate = live (c ∷ []);
          use_gi = live (u ∷ []);
          pvector = live (p ∷ ps);
          shape = live (x ∷ y ∷ z ∷ []);
          error = live (error ∷ es);
          scratch = live (s ∷ []);
        })
        ≡ ok (record {
          calculate = live (c ∷ []);
          use_gi = live (u ∷ []);
          pvector = live (out ∷ ps);
          shape = live (t.vout ∷ t.dout ∷ t.iout ∷ []);
          error = live (error ∷ es);
          scratch = live (s' ∷ []);
        })
  unfolding pidv4 element_rounds element_round store_shape read write
  pidv4_one time g c u p error x y z ps es s = refl
