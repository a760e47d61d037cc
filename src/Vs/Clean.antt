-- ===== src/Vs/Clean.antt =====
-- `fastz_clean` of vscontrol.h: what is freed after a shot, and what is reset.
pub mod DoubleFree
pub mod Held
pub mod Limited
pub mod Right
pub mod First
pub mod Stale
use daux4pcs2m.Base.{ℕ, zero, suc, Bool, true, false, ◌||◌, List, [], ◌∷◌, if◌then◌else◌}
use daux4pcs2m.Real.{Ieee, Float, nought}
use daux4pcs2m.Memory.Result.{Result, ok, err, out_of_bounds, ◌>>=◌}
use daux4pcs2m.Memory.Buffer.{Buffer, contents, free, live, write}
use daux4pcs2m.Filter.{Lpf}
use daux4pcs2m.Pid.{Scratch}
use daux4pcs2m.Vs.State.{Point, Wave, Config, Targets, Trace, Vs, AlgMask}

-- A statement under `if`.
abbrev when {ℓ} : {A : Type ℓ} → Bool → (A → Result A) → A → Result A
when true f a = f a
when false f a = ok a

module _ ⦃m : Ieee⦄ where
  -- `free(wave)`, which leaves the count.
  unfoldable pub free_wave : Wave → Result Wave
  free_wave w = do p ← free w.points; ok (record w { points = p })

  unfoldable pub free_cc : Config × Targets → Result (Config × Targets)
  free_cc (c, t) = do
    ivs1 ← free_wave c.ivs1
    ivs2 ← free_wave c.ivs2
    vvs1 ← free_wave c.vvs1
    vvs2 ← free_wave c.vvs2
    a ← free t.ccivs1
    b ← free t.ccivs2
    d ← free t.ccvvs1
    e ← free t.ccvvs2
    ok (
      record c { ivs1 = ivs1; ivs2 = ivs2; vvs1 = vvs1; vvs2 = vvs2 },
      record t { ccivs1 = a; ccivs2 = b; ccvvs1 = d; ccvvs2 = e },
    )

  -- `for (i = 0; i < WhichE_len; i++) free(EMatrix[i]);`, with the rounds left.
  unfoldable pub free_rows : ℕ → List (Buffer Float) → Result (List (Buffer Float))
  free_rows zero rs = ok rs
  free_rows (suc n) [] = err out_of_bounds
  free_rows (suc n) (r ∷ rs) = do r' ← free r; rs' ← free_rows n rs; ok (r' ∷ rs')

  -- The vertices and matrices of the limited algorithm. The count of the rows is the one that `linear` may
  -- have changed.
  unfoldable pub free_lm_config : Config → Result Config
  free_lm_config c = do
    zx1ref ← free_wave c.zx1ref
    which_e ← free_wave c.which_e
    which_m ← free_wave c.which_m
    gp ← free_wave c.zx1gp
    gd ← free_wave c.zx1gd
    gi ← free_wave c.zx1gi
    tp ← free_wave c.zx1tp
    td ← free_wave c.zx1td
    ti ← free_wave c.zx1ti
    sztc ← free_wave c.sztc
    szdt ← free_wave c.szdt
    mmatrix ← free c.mmatrix
    rows ← contents c.ematrix
    _ ← free_rows which_e.len rows
    ematrix ← free c.ematrix
    ok (record c {
      zx1ref = zx1ref;
      which_e = which_e;
      which_m = which_m;
      zx1gp = gp;
      zx1gd = gd;
      zx1gi = gi;
      zx1tp = tp;
      zx1td = td;
      zx1ti = ti;
      sztc = sztc;
      szdt = szdt;
      mmatrix = mmatrix;
      ematrix = ematrix;
    })

  unfoldable pub free_lm_targets : Targets → Result Targets
  free_lm_targets t = do
    zx1ref ← free t.zx1ref
    which_e ← free t.which_e
    which_m ← free t.which_m
    gp ← free t.zx1gp
    gd ← free t.zx1gd
    gi ← free t.zx1gi
    tp ← free t.zx1tp
    td ← free t.zx1td
    ti ← free t.zx1ti
    sztc ← free t.sztc
    szdt ← free t.szdt
    ok (record t {
      zx1ref = zx1ref;
      which_e = which_e;
      which_m = which_m;
      zx1gp = gp;
      zx1gd = gd;
      zx1gi = gi;
      zx1tp = tp;
      zx1td = td;
      zx1ti = ti;
      sztc = sztc;
      szdt = szdt;
    })

  unfoldable pub free_lm : Config × Targets → Result (Config × Targets)
  free_lm (c, t) = do c' ← free_lm_config c; t' ← free_lm_targets t; ok (c', t')

  unfoldable pub free_ip : Config × Targets → Result (Config × Targets)
  free_ip (c, t) = do
    w ← free_wave c.ipref
    a ← free t.ipref
    ok (record c { ipref = w }, record t { ipref = a })

  unfoldable pub free_fd : Config × Targets → Result (Config × Targets)
  free_fd (c, t) = do
    v ← free_wave c.ipeoo
    w ← free_wave c.ipetl
    a ← free t.ipeoo
    b ← free t.ipetl
    ok (record c { ipeoo = v; ipetl = w }, record t { ipeoo = a; ipetl = b })

  unfoldable pub free_sm : Config × Targets → Result (Config × Targets)
  free_sm (c, t) = do
    u ← free_wave c.dummy_zx1
    v ← free_wave c.dummy_ip
    w ← free_wave c.dummy_ivs1
    a ← free t.dummy_ip
    b ← free t.dummy_zx1
    d ← free t.dummy_ivs1
    ok (
      record c { dummy_zx1 = u; dummy_ip = v; dummy_ivs1 = w },
      record t { dummy_ip = a; dummy_zx1 = b; dummy_ivs1 = d },
    )

  unfoldable pub free_trace : Trace → Result Trace
  free_trace r = do
    timebase ← free r.timebase
    zpos ← free r.zpos
    derror ← free r.derror
    error ← free r.error
    pvector ← free r.pvector
    precmd ← free r.precmd
    fincmd ← free r.fincmd
    fincmd_bit ← free r.fincmd_bit
    ok (record {
      timebase = timebase;
      zpos = zpos;
      error = error;
      derror = derror;
      pvector = pvector;
      precmd = precmd;
      fincmd = fincmd;
      fincmd_bit = fincmd_bit;
    })

  -- The five blocks for the algorithms.
  unfoldable pub free_waves : AlgMask → Config × Targets → Result (Config × Targets)
  free_waves mask s = do
    s1 ← when mask.cc free_cc s
    s2 ← when mask.lm free_lm s1
    s3 ← when mask.ip free_ip s2
    s4 ← when mask.fd free_fd s3
    when mask.sm free_sm s4

  -- The state of the filter after a shot.
  abbrev pub lpf_reset : Lpf
  lpf_reset = record {
    init_cycle = 1;
    lbbtime = nought;
    vlast = nought;
    elast = nought;
    tlast = nought;
  }

  abbrev pub scratch_reset : Scratch
  scratch_reset = record {
    tlast = nought;
    ilast = nought;
    dlast = nought;
    vlast = nought;
    elast = nought;
  }

  module _ {I : Type 0} (destroy : I → I) where
    -- The block under `if(EXIST_CC||EXIST_LM)`; `destroy` is `DestroyPwrAlgoInst`.
    unfoldable pub stop_control : Vs I → Result (Vs I)
    stop_control s = do
      trace ← free_trace s.trace
      ok (record s { trace = trace; inst = destroy s.inst })

    unfoldable pub fastz_clean : Vs I → Result (Vs I)
    fastz_clean s = do
      (c, t) ← free_waves s.algmask (s.config, s.targets)
      s' ← when (s.algmask.cc || s.algmask.lm) stop_control (record s { config = c; targets = t })
      scratch ← write s'.scratch 0 scratch_reset
      ok (record s' { lpf = lpf_reset; scratch = scratch })
