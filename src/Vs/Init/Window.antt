-- ===== src/Vs/Init/Window.antt =====
-- The times of a shot, and waveforms that an earlier shot left behind, in `fastz_init` of
-- vscontrol.h.
use daux4pcs2m.Base.{refl, not, Bool, ◌&&◌, true, false, ◌≡◌, arith}
use daux4pcs2m.Real.{Ieee, Float, ◌≺◌}
use daux4pcs2m.Vs.State.{Config, AlgMask}
use daux4pcs2m.Vs.Init.{set_window}

-- The comparison of floats is irreflexive and asymmetric.
pub record IsStrict (m : Ieee) : Type 0 where
  pub irreflexive : (x : m.Single) → m.single.lt x x ≡ false
  pub asymmetric : (x y : m.Single) → m.single.lt x y ≡ true → m.single.lt y x ≡ false

module _ ⦃m : Ieee⦄ where
  -- The times of the shot do not begin after the start of a phase or end before its end.
  pub record Covers (c : Config) (start end : Float) : Type 0 where
    pub start_covered : (start ≺ c.vs1_st) ≡ false
    pub end_covered : (c.vs1_et ≺ end) ≡ false

  -- The claim, when the test holds.
  abbrev pub If : Bool → Type 0 → Type 0
  If true p = p
  If false p = Unit

  if_holds : (b : Bool) (p : Type 0) → (b ≡ true → p) → If b p
  if_holds true p h = h refl
  if_holds false p h = tt

  cover_parts :
      (mask : AlgMask) (c : Config)
      → IsStrict m
      → let w = set_window mask c in
        (mask.cc ≡ true → Covers w c.cc_st c.cc_et)
        × (mask.lm ≡ true → Covers w c.limit_st c.limit_et)
        × (mask.cc ≡ false → mask.lm ≡ false → (w.vs1_st ≡ c.vs1_st) × (w.vs1_et ≡ c.vs1_et))
  unfolding set_window
  cover_parts mask c strict =
      let a = strict.asymmetric c.cc_st c.limit_st in
      let b = strict.asymmetric c.limit_et c.cc_et in
      let d = strict.irreflexive c.cc_st in
      let e = strict.irreflexive c.cc_et in
      let f = strict.irreflexive c.limit_st in
      let g = strict.irreflexive c.limit_et in
      (λ h. ground arith, λ h. ground arith, λ h k. ground arith)

  -- The times that `fastz_init` sets cover the phase of each algorithm that is there; with neither,
  -- they stay as the file gave them for VS1. The comparison has to be irreflexive and asymmetric.
  pub set_window-Covers :
      (mask : AlgMask) (c : Config)
      → IsStrict m
      → let w = set_window mask c in
        If mask.cc (Covers w c.cc_st c.cc_et)
        × If mask.lm (Covers w c.limit_st c.limit_et)
        × If (not mask.cc && not mask.lm) ((w.vs1_st ≡ c.vs1_st) × (w.vs1_et ≡ c.vs1_et))
  set_window-Covers mask c strict =
      let (cc_part, lm_part, neither) = cover_parts mask c strict in
      (
        if_holds mask.cc _ cc_part,
        if_holds mask.lm _ lm_part,
        if_holds (not mask.cc && not mask.lm) _ (λ h. neither (ground arith) (ground arith)),
      )
