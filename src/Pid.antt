-- ===== src/Pid.antt =====
-- pidv4_cal.h: the PID step of the vertical position control, on arrays of controllers.
pub mod Laws
pub mod Arrays
use daux4pcs2m.Base.{
  ℕ, zero, suc, ◌+◌, ◌*◌, Bool, true, false, not, ◌&&◌, ◌||◌, List, [], ◌∷◌, Option, none, some,
  ◌==◌, if◌then◌else◌, map,
}
use daux4pcs2m.Real.{
  Ieee, Float, Dbl, ◌⊕◌, ◌⊖◌, ◌⊗◌, ◌≈◌, ◌⊞◌, ◌⊟◌, ◌⊠◌, ◌⧄◌, ◌◁◌, ◌⊴◌, ◌≐◌, nought, zero_lit, flush,
}
use daux4pcs2m.Memory.Result.{Result, ok, err, dangling_access, ◌>>=◌}
use daux4pcs2m.Memory.Buffer.{Buffer, null, freed, live, read, write}

-- `struct scratch_area`
pub record Scratch ⦃m : Ieee⦄ : Type 0 where
  pub tlast : Float
  pub ilast : Float
  pub dlast : Float
  pub vlast : Float
  pub elast : Float

-- The gains and the time constants, which are the same for each element.
pub record Gains ⦃m : Ieee⦄ : Type 0 where
  pub gp : Float
  pub gd : Float
  pub gi : Float
  pub taup : Float
  pub taud : Float
  pub taui : Float

-- The proportional, derivative and integral terms.
pub record Terms ⦃m : Ieee⦄ : Type 0 where
  pub vout : Float
  pub dout : Float
  pub iout : Float

module _ ⦃m : Ieee⦄ where
  open m use {widen, narrow, lit}

  -- `1.0/(2.0*1.0e6*tau)`
  unfoldable pub half_rate : Float → Float
  half_rate tau = narrow (lit 1 0 ⧄ (lit 2 0 ⊠ lit 1000000 0 ⊠ widen tau))

  -- `if (tau == 0.0) tau = 1.0e-6;`
  unfoldable pub at_least_micro : Float → Float
  at_least_micro tau = if widen tau ≐ lit 0 0 then narrow (lit 1 6) else tau

  abbrev pub one : Float
  one = narrow (lit 1 0)

  -- The integrator is held at its last value (modes 2 and 3) or cleared (gain 0, modes 0, 4 and 5),
  -- and otherwise steps.
  unfoldable pub integrate : Float → ℕ → Float → Float → Scratch → Float
  integrate gi use_gi qqi vout s =
      if widen gi ≐ lit 0 0 || use_gi == 0
      then zero_lit
      else if use_gi == 2
      then s.ilast
      else if use_gi == 3
          && (lit 0 0 ◁ widen vout && lit 0 0 ⊴ widen s.ilast
              || widen vout ◁ lit 0 0 && widen s.ilast ⊴ lit 0 0)
      then s.ilast
      else if use_gi == 4 && widen vout ⊴ lit 0 0
      then zero_lit
      else if use_gi == 5 && lit 0 0 ⊴ widen vout
      then zero_lit
      else flush (m.single.div (qqi ⊗ (vout ⊕ s.vlast) ⊖ (qqi ⊖ one) ⊗ s.ilast) (qqi ⊕ one))

  -- The block under `time != scratch[i].tlast`.
  unfoldable pub advance : Float → ℕ → Float → Gains → Scratch → Terms × Scratch
  unfolding half_rate at_least_micro integrate
  advance time use_gi error g s =
      let taupinverse = if not (widen g.taup ≐ lit 0 0) then half_rate g.taup else zero_lit in
      let taudinverse = half_rate (at_least_micro g.taud) in
      let tauiinverse = half_rate (at_least_micro g.taui) in
      let dt = time ⊖ s.tlast in
      let qqp = dt ⊗ taupinverse in
      let qqd = dt ⊗ taudinverse in
      let qqi = dt ⊗ tauiinverse in
      let lagged = m.single.div (qqp ⊗ (error ⊕ s.elast) ⊖ (qqp ⊖ one) ⊗ s.vlast) (qqp ⊕ one) in
      let vout = flush (if not (widen g.taup ≐ lit 0 0) then lagged else error) in
      let dout = flush (m.single.div (vout ⊖ s.vlast ⊖ (qqd ⊖ one) ⊗ s.dlast) (qqd ⊕ one)) in
      let iout = integrate g.gi use_gi qqi vout s in
      (
        record { vout = vout; dout = dout; iout = iout },
        record { tlast = time; ilast = iout; dlast = dout; vlast = vout; elast = error },
      )

  -- What `calculate[i] == 0` and then a zero `tlast` do to the memory before the step.
  unfoldable pub seed : ℕ → Float → Float → Scratch → Scratch
  seed calculate time error s =
      let tlast = if calculate == 0 then nought else s.tlast in
      if tlast ≈ nought
      then record { tlast = time; ilast = zero_lit; dlast = zero_lit; vlast = error; elast = error }
      else record s { tlast = tlast }

  unfoldable pub terms : Float → ℕ → Float → Gains → Scratch → Terms × Scratch
  terms time use_gi error g s =
      if not (time ≈ s.tlast)
      then advance time use_gi error g s
      else (record { vout = s.vlast; dout = s.dlast; iout = s.ilast }, s)

  -- One round of the loop: the output, the three terms that go to `shape`, and the memory left.
  unfoldable pub pid_element : Float → Gains → ℕ → ℕ → Float → Scratch → Float × Terms × Scratch
  pid_element time g calculate use_gi error s =
      let (t, s') = terms time use_gi error g (seed calculate time error s) in
      (g.gp ⊗ t.vout ⊕ g.gd ⊗ t.dout ⊕ g.gi ⊗ t.iout, t, s')

  -- The arrays that the arguments of `pidv4` point to. `shape` may be `NULL`.
  pub record Elements : Type 0 where
    pub calculate : Buffer ℕ
    pub use_gi : Buffer ℕ
    pub pvector : Buffer Float
    pub shape : Buffer Float
    pub error : Buffer Float
    pub scratch : Buffer Scratch

  -- The three writes under `if(shape != NULL)`.
  unfoldable pub store_shape : Terms → ℕ → Buffer Float → Result (Buffer Float)
  store_shape t i null = ok null
  store_shape t i freed = err dangling_access
  store_shape t i (live xs) = do
    a ← write (live xs) (i * 3 + 0) t.vout
    b ← write a (i * 3 + 1) t.dout
    write b (i * 3 + 2) t.iout

  -- One round of the loop over the elements, on the arrays.
  unfoldable pub element_round : Float → Gains → ℕ → Elements → Result Elements
  element_round time g i a = do
    calculate ← read a.calculate i
    use_gi ← read a.use_gi i
    error ← read a.error i
    memory ← read a.scratch i
    let (p, t, memory') = pid_element time g calculate use_gi error memory
    scratch ← write a.scratch i memory'
    pvector ← write a.pvector i p
    shape ← store_shape t i a.shape
    ok (record a { scratch = scratch; pvector = pvector; shape = shape })

  -- The rounds that are left, from the element `i` on.
  unfoldable pub element_rounds : Float → Gains → ℕ → ℕ → Elements → Result Elements
  element_rounds time g zero i a = ok a
  element_rounds time g (suc n) i a = do
    a' ← element_round time g i a
    element_rounds time g n (suc i) a'

  unfoldable pub pidv4 : ℕ → Float → Gains → Elements → Result Elements
  pidv4 numpvelem time g a = element_rounds time g numpvelem 0 a
