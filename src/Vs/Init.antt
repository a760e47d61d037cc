-- ===== src/Vs/Init.antt =====
-- `fastz_init` of vscontrol.h and the functions that sample the waveforms for it.
pub mod Window
pub mod Sampled
pub mod Ready
use daux4pcs2m.Base.{
  ℕ, zero, suc, ◌+◌, Bool, true, false, ◌&&◌, ◌||◌, List, [], ◌∷◌, Option, if◌then◌else◌,
}
use daux4pcs2m.Base.Int.{ℤ, pos}
use daux4pcs2m.Base.Text.{Text, Stream, Scan}
use daux4pcs2m.Real.{Ieee, Float, Dbl, ◌⊖◌, ◌⊗◌, ◌⊘◌, ◌≺◌, ◌⧄◌, nought}
use daux4pcs2m.Memory.Result.{Result, ok, err, ◌>>=◌}
use daux4pcs2m.Memory.Buffer.{Buffer, live, allocate}
use daux4pcs2m.Pid.{Scratch}
use daux4pcs2m.Vs.State.{Point, Wave, Config, Targets, Trace, Vs, AlgMask, StcIn}
use daux4pcs2m.Vs.Linear.{linear}
use daux4pcs2m.Vs.Ztarget.{Input, read_ztarget}

-- What the program does not decide: the C library's conversions and what `malloc` leaves in memory.
-- The fuels are for the main loop of the reader and for the loop between two vertices.
pub record Env ⦃m : Ieee⦄ : Type 0 where
  pub scan : Scan Float
  pub garbage : Point
  pub garbage_scratch : Scratch
  pub read_fuel : ℕ
  pub sample_fuel : ℕ

module _ ⦃m : Ieee⦄ where
  open m use {widen, narrow, lit, of_int, to_int, trunc}

  -- The times between which the waveforms are sampled, and the cycle; `samples` is `vs_samples`.
  pub record Grid : Type 0 where
    pub fuel : ℕ
    pub samples : ℤ
    pub interval : Float

  -- `(int)((end_time - start_time) / interval)`
  abbrev pub total : Float → Float → Float → ℤ
  total start end interval = to_int ((end ⊖ start) ⊘ interval)

  abbrev continuous : Bool
  continuous = false

  abbrev stepwise : Bool
  stepwise = true

  -- `calloc(count, sizeof(float))` and the call of `linear` on it.
  unfoldable pub sampled : Grid → ℤ → Float → Float → Bool → Wave → Result (Wave × Buffer Float)
  sampled g count start end step w = do
    r ← linear g.fuel g.samples g.interval w start end (allocate count nought) step
    ok (r.wave, r.samples)

  unfoldable pub cc_interpolation_data :
      Grid → Float → Float → Config → Targets → Result (Config × Targets)
  cc_interpolation_data g start end c t = do
    let n = total start end g.interval
    ivs1 ← sampled g n start end continuous c.ivs1
    ivs2 ← sampled g n start end continuous c.ivs2
    vvs1 ← sampled g n start end continuous c.vvs1
    vvs2 ← sampled g n start end continuous c.vvs2
    ok (
      record c { ivs1 = ivs1.0; ivs2 = ivs2.0; vvs1 = vvs1.0; vvs2 = vvs2.0 },
      record t { ccivs1 = ivs1.1; ccivs2 = ivs2.1; ccvvs1 = vvs1.1; ccvvs2 = vvs2.1 },
    )

  -- The arguments are not used: the count is from `vs1_st` to `vs1_et`, the samples are from
  -- `limit_st` to `limit_et`.
  unfoldable pub lm_interpolation_data : Grid → Config → Targets → Result (Config × Targets)
  lm_interpolation_data g c t = do
    let n = total c.vs1_st c.vs1_et g.interval
    zx1ref ← sampled g n c.limit_st c.limit_et continuous c.zx1ref
    which_e ← sampled g n c.limit_st c.limit_et stepwise c.which_e
    which_m ← sampled g n c.limit_st c.limit_et stepwise c.which_m
    gp ← sampled g n c.limit_st c.limit_et continuous c.zx1gp
    gd ← sampled g n c.limit_st c.limit_et continuous c.zx1gd
    gi ← sampled g n c.limit_st c.limit_et continuous c.zx1gi
    tp ← sampled g n c.limit_st c.limit_et continuous c.zx1tp
    td ← sampled g n c.limit_st c.limit_et continuous c.zx1td
    ti ← sampled g n c.limit_st c.limit_et continuous c.zx1ti
    sztc ← sampled g n c.limit_st c.limit_et continuous c.sztc
    szdt ← sampled g n c.limit_st c.limit_et continuous c.szdt
    ok (
      record c {
        zx1ref = zx1ref.0;
        which_e = which_e.0;
        which_m = which_m.0;
        zx1gp = gp.0;
        zx1gd = gd.0;
        zx1gi = gi.0;
        zx1tp = tp.0;
        zx1td = td.0;
        zx1ti = ti.0;
        sztc = sztc.0;
        szdt = szdt.0;
      },
      record t {
        zx1ref = zx1ref.1;
        which_e = which_e.1;
        which_m = which_m.1;
        zx1gp = gp.1;
        zx1gd = gd.1;
        zx1gi = gi.1;
        zx1tp = tp.1;
        zx1td = td.1;
        zx1ti = ti.1;
        sztc = sztc.1;
        szdt = szdt.1;
      },
    )

  unfoldable pub ip_interpolation_data :
      Grid → Float → Float → Config → Targets → Result (Config × Targets)
  ip_interpolation_data g start end c t = do
    ipref ← sampled g (total start end g.interval) start end continuous c.ipref
    ok (record c { ipref = ipref.0 }, record t { ipref = ipref.1 })

  unfoldable pub fd_interpolation_data :
      Grid → Float → Float → Config → Targets → Result (Config × Targets)
  fd_interpolation_data g start end c t = do
    let n = total start end g.interval
    ipeoo ← sampled g n start end stepwise c.ipeoo
    ipetl ← sampled g n start end continuous c.ipetl
    ok (
      record c { ipeoo = ipeoo.0; ipetl = ipetl.0 },
      record t { ipeoo = ipeoo.1; ipetl = ipetl.1 },
    )

  unfoldable pub sm_interpolation_data :
      Grid → Float → Float → Config → Targets → Result (Config × Targets)
  sm_interpolation_data g start end c t = do
    let n = total start end g.interval
    ip ← sampled g n start end continuous c.dummy_ip
    zx1 ← sampled g n start end continuous c.dummy_zx1
    ivs1 ← sampled g n start end continuous c.dummy_ivs1
    ok (
      record c { dummy_ip = ip.0; dummy_zx1 = zx1.0; dummy_ivs1 = ivs1.0 },
      record t { dummy_ip = ip.1; dummy_zx1 = zx1.1; dummy_ivs1 = ivs1.1 },
    )

  -- The macros `min` and `max`.
  abbrev pub min : Float → Float → Float
  min a b = if a ≺ b then a else b

  abbrev pub max : Float → Float → Float
  max a b = if b ≺ a then a else b

  -- The three tests that set `vs1_st` and `vs1_et`, in order.
  unfoldable pub set_window : AlgMask → Config → Config
  set_window mask c =
      let c1 = if mask.cc then record c { vs1_st = c.cc_st; vs1_et = c.cc_et } else c in
      let c2 = if mask.lm then record c1 { vs1_st = c.limit_st; vs1_et = c.limit_et } else c1 in
      if mask.cc && mask.lm
      then record c2 { vs1_st = min c.cc_st c.limit_st; vs1_et = max c.cc_et c.limit_et }
      else c2

  -- A call under `if(EXIST_..)`.
  abbrev pub when :
      Bool
      → (Config → Targets → Result (Config × Targets))
      → Config × Targets
      → Result (Config × Targets)
  when true f (c, t) = f c t
  when false f ct = ok ct

  -- The five calls that sample the waveforms of the algorithms that are there.
  unfoldable pub interpolate : AlgMask → Grid → Config → Targets → Result (Config × Targets)
  interpolate mask g c t = do
    s1 ← when mask.cc (cc_interpolation_data g c.vs1_st c.vs1_et) (c, t)
    s2 ← when mask.lm (lm_interpolation_data g) s1
    s3 ← when mask.ip (ip_interpolation_data g c.vs1_st c.vs1_et) s2
    s4 ← when mask.fd (fd_interpolation_data g c.vs1_st c.vs1_et) s3
    when mask.sm (sm_interpolation_data g c.vs1_st c.vs1_et) s4

  module _ {I : Type 0} (create : I → I) (env : Env) where
    -- The block under `if(EXIST_CC||EXIST_LM)`; `create` is `CreatePwrAlgoInst`.
    unfoldable pub start_control : Vs I → Vs I
    start_control s =
        let arrays = allocate s.vs_samples nought in
        record s {
          trace = record s.trace {
            zpos = arrays;
            error = arrays;
            derror = arrays;
            pvector = arrays;
            precmd = arrays;
            fincmd = allocate s.vs_samples 0;
            fincmd_bit = allocate s.vs_samples 0;
          };
          scratch = live (env.garbage_scratch ∷ []);
          s_in = record {
            start = to_int (s.config.vs1_st ⊗ of_int (pos 1000));
            end = to_int (s.config.vs1_et ⊗ of_int (pos 1000));
            op_mode = s.config.vs1mode;
          };
          inst = create s.inst;
        }

    -- `fastz_init(interval, zfile)`: the new state, and the text left in `zfbuf`.
    unfoldable pub fastz_init : Dbl → Option Stream → Text → Vs I → Result (Vs I × Text)
    fastz_init interval zfile zfbuf s = do
      ((mask, read), i) ←
          read_ztarget env.scan env.garbage env.read_fuel zfile zfbuf (s.algmask, s.config)
      let c = set_window mask read
      let samples = trunc (widen (c.vs1_et ⊖ c.vs1_st) ⧄ interval)
      let g : Grid = record {
        fuel = env.sample_fuel;
        samples = samples;
        interval = narrow interval;
      }
      (c', t) ← interpolate mask g c s.targets
      let s' = record s {
        algmask = mask;
        vs_cycle = 0;
        vs_time = nought;
        vs_interval = narrow interval;
        vs_samples = samples;
        config = c';
        targets = t;
        trace = record s.trace { timebase = allocate samples env.garbage.x };
      }
      ok (if mask.cc || mask.lm then start_control s' else s', i.zfbuf)
