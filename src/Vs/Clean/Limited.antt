-- ===== src/Vs/Clean/Limited.antt =====
-- The block of `fastz_clean` of vscontrol.h for the limited algorithm, when nothing is freed twice.
use daux4pcs2m.Base.{ℕ, zero, suc, ◌≤◌, length, arith, List, [], ◌∷◌, All, ◌≡◌, refl}
use daux4pcs2m.Real.{Ieee, Float}
use daux4pcs2m.Memory.Result.{ok}
use daux4pcs2m.Memory.Buffer.{Buffer, freed, live, free}
use daux4pcs2m.Vs.State.{Config, Targets}
use daux4pcs2m.Vs.Clean.{free_rows, free_lm_config, free_lm_targets, free_lm}
use daux4pcs2m.Vs.Clean.Held.{
  Held, after_free, free_right, HeldWave, after_free_wave, free_wave_right, HeldLm,
}

module _ ⦃m : Ieee⦄ where
  abbrev after_lm_config : Config → Config
  after_lm_config c = record c {
    zx1ref = after_free_wave c.zx1ref;
    which_e = after_free_wave c.which_e;
    which_m = after_free_wave c.which_m;
    zx1gp = after_free_wave c.zx1gp;
    zx1gd = after_free_wave c.zx1gd;
    zx1gi = after_free_wave c.zx1gi;
    zx1tp = after_free_wave c.zx1tp;
    zx1td = after_free_wave c.zx1td;
    zx1ti = after_free_wave c.zx1ti;
    sztc = after_free_wave c.sztc;
    szdt = after_free_wave c.szdt;
    mmatrix = after_free c.mmatrix;
    ematrix = freed;
  }

  abbrev after_lm_targets : Targets → Targets
  after_lm_targets t = record t {
    zx1ref = after_free t.zx1ref;
    which_e = after_free t.which_e;
    which_m = after_free t.which_m;
    zx1gp = after_free t.zx1gp;
    zx1gd = after_free t.zx1gd;
    zx1gi = after_free t.zx1gi;
    zx1tp = after_free t.zx1tp;
    zx1td = after_free t.zx1td;
    zx1ti = after_free t.zx1ti;
    sztc = after_free t.sztc;
    szdt = after_free t.szdt;
  }

  abbrev pub after_lm : Config × Targets → Config × Targets
  after_lm (c, t) = (after_lm_config c, after_lm_targets t)

  free_rows_right :
      (n : ℕ) (rows : List (Buffer Float))
      → n ≤ length rows
      → All Held rows
      → (out : List (Buffer Float)) × (free_rows n rows ≡ ok out)
  unfolding free_rows
  free_rows_right zero rows fits h = (rows, refl)
  free_rows_right (suc n) [] fits h = absurd (omega arith)
  free_rows_right (suc n) (r ∷ rs) fits (h, hs) =
      let (out, e) = free_rows_right n rs (omega arith) hs in
      (after_free r ∷ out, rw (free_right r h) (rw e refl))

  free_lm_config_right :
      (c : Config) (rows : List (Buffer Float))
      → All HeldWave (
          c.zx1ref ∷ c.which_e ∷ c.which_m ∷ c.zx1gp ∷ c.zx1gd ∷ c.zx1gi ∷ c.zx1tp ∷ c.zx1td
          ∷ c.zx1ti ∷ c.sztc ∷ c.szdt ∷ [])
      → Held c.mmatrix
      → c.ematrix ≡ live rows
      → c.which_e.len ≤ length rows
      → All Held rows
      → free_lm_config c ≡ ok (after_lm_config c)
  unfolding free_lm_config free
  free_lm_config_right c rows (w0, (w1, (w2, (w3, (w4, (w5, (w6, (w7, (w8, (w9, (w10, _))))))))))) m
        e fits h =
      let (out, er) = free_rows_right c.which_e.len rows fits h in
      rw (free_wave_right c.zx1ref w0) (
        rw (free_wave_right c.which_e w1) (
          rw (free_wave_right c.which_m w2) (
            rw (free_wave_right c.zx1gp w3) (
              rw (free_wave_right c.zx1gd w4) (
                rw (free_wave_right c.zx1gi w5) (
                  rw (free_wave_right c.zx1tp w6) (
                    rw (free_wave_right c.zx1td w7) (
                      rw (free_wave_right c.zx1ti w8) (
                        rw (free_wave_right c.sztc w9) (
                          rw (free_wave_right c.szdt w10)
                            (rw (free_right c.mmatrix m) (rw e (rw er refl)))))))))))))

  free_lm_targets_right :
      (t : Targets)
      → All Held (
          t.zx1ref ∷ t.which_e ∷ t.which_m ∷ t.zx1gp ∷ t.zx1gd ∷ t.zx1gi ∷ t.zx1tp ∷ t.zx1td
          ∷ t.zx1ti ∷ t.sztc ∷ t.szdt ∷ [])
      → free_lm_targets t ≡ ok (after_lm_targets t)
  unfolding free_lm_targets
  free_lm_targets_right t (w0, (w1, (w2, (w3, (w4, (w5, (w6, (w7, (w8, (w9, (w10, _))))))))))) =
      rw (free_right t.zx1ref w0) (
        rw (free_right t.which_e w1) (
          rw (free_right t.which_m w2) (
            rw (free_right t.zx1gp w3) (
              rw (free_right t.zx1gd w4) (
                rw (free_right t.zx1gi w5) (
                  rw (free_right t.zx1tp w6) (
                    rw (free_right t.zx1td w7) (
                      rw (free_right t.zx1ti w8)
                        (rw (free_right t.sztc w9) (rw (free_right t.szdt w10) (refl)))))))))))

  pub free_lm_right : (s : Config × Targets) → HeldLm s → free_lm s ≡ ok (after_lm s)
  unfolding free_lm
  free_lm_right (c, t) (waves, m, (rows, e, fits, h), arrays) =
      let ec = free_lm_config_right c rows waves m e fits h in
      let et = free_lm_targets_right t arrays in rw ec (rw et refl)
