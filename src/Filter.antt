-- ===== src/Filter.antt =====
-- low_pass_filter.h: the filter of the vertical position error.
pub mod Laws
use daux4pcs2m.Base.{ℕ, List, [], ◌∷◌, ◌==◌, if◌then◌else◌}
use daux4pcs2m.Real.{Ieee, Float, ◌⊕◌, ◌⊖◌, ◌⊗◌, ◌≈◌, ◌⊞◌, ◌⊟◌, ◌⊠◌, ◌⧄◌, ◌⊴◌, nought, flush}

-- The globals of the file; `init_cycle` is `limited_init_cycle` and the others lose their `lp_`.
pub record Lpf ⦃m : Ieee⦄ : Type 0 where
  pub init_cycle : ℕ
  pub lbbtime : Float
  pub vlast : Float
  pub elast : Float
  pub tlast : Float

module _ ⦃m : Ieee⦄ where
  open m use {widen, narrow, lit}

  -- The initial values.
  abbrev pub lpf_init : Lpf
  lpf_init = record {
    init_cycle = 1;
    lbbtime = nought;
    vlast = nought;
    elast = nought;
    tlast = nought;
  }

  -- The step of the filter for a time constant that is not too small.
  unfoldable pub smooth : Float → Float → Float → Lpf → Float
  smooth value tau time s =
      let taupinverse = narrow (lit 1 0 ⧄ (lit 2 0 ⊠ widen tau)) in
      let qqp = (time ⊖ s.tlast) ⊗ taupinverse in
      narrow (
        (widen (qqp ⊗ (value ⊕ s.elast)) ⊟ (widen qqp ⊟ lit 1 0) ⊠ widen s.vlast)
        ⧄ (widen qqp ⊞ lit 1 0))

  -- Beside the result, the values that the function leaves in the globals.
  unfoldable pub low_pass_filter : Float → Float → Float → Lpf → Float × Lpf
  low_pass_filter value f_tau time s =
      let tau = narrow (widen f_tau ⊠ lit 1 3) in
      let tlast = if s.init_cycle == 1 then nought else s.tlast in
      if tlast ≈ nought
      then (value, record s { vlast = value; elast = value; tlast = time })
      else if time ≈ tlast
      then (s.vlast, record s { tlast = tlast })
      else let raw = if lit 1 4 ⊴ widen tau then smooth value tau time s else value in
        let vout = flush raw in (vout, record s { vlast = vout; elast = value; tlast = time })

  -- A sequence of calls: a value, its time constant and its time each.
  unfoldable pub filter_all : List (Float × Float × Float) → Lpf → List Float × Lpf
  filter_all [] s = ([], s)
  filter_all ((value, tau, time) ∷ rest) s =
      let (vout, s') = low_pass_filter value tau time s in
      let (vouts, t) = filter_all rest s' in (vout ∷ vouts, t)
