-- ===== src/Vs/Cycle.antt =====
-- `fastz` of vscontrol.h, the control step of one cycle, as built without the digital output.
pub mod Record
pub mod Plan
pub mod Kept
pub mod Idle
pub mod Arrays
pub mod Ready
use daux4pcs2m.Base.{ℕ, zero, suc, ◌+◌, ◌-◌, Bool, true, false, ◌&&◌, List, [], ◌∷◌, if◌then◌else◌}
use daux4pcs2m.Base.Int.{ℤ, pos, negsuc}
use daux4pcs2m.Real.{
  Ieee, Float, Dbl, ◌⊕◌, ◌⊖◌, ◌⊗◌, ◌⊘◌, ◌≺◌, ◌≈◌, ◌⊟◌, ◌⊠◌, ◌⧄◌, ◌◁◌, ◌⊴◌, nought,
}
use daux4pcs2m.Memory.Result.{Result, ok, err, out_of_bounds, ◌>>=◌}
use daux4pcs2m.Memory.Buffer.{Buffer, read, write, read_list}
use daux4pcs2m.Filter.{Lpf, low_pass_filter}
use daux4pcs2m.Pid.{Scratch, Gains, Terms, pid_element}
use daux4pcs2m.Vs.State.{Vs, Config, Targets, Trace, StcIn, VarIn, VsOut, is_int}

-- The channels of input_data.h that the control uses, and the column of EMatrix for the first one.
abbrev pub daq_ivs1 : ℕ
daq_ivs1 = 16

abbrev pub daq_rl01 : ℕ
daq_rl01 = 22

abbrev pub daq_fl01 : ℕ
daq_fl01 = 24

abbrev pub daq_mp20n : ℕ
daq_mp20n = 95

abbrev pub em_fl01 : ℕ
em_fl01 = 19

-- An int as an index.
abbrev pub index : ℤ → Result ℕ
index (pos n) = ok n
index (negsuc n) = err out_of_bounds

module _ ⦃m : Ieee⦄ where
  open m use {widen, narrow, lit, of_int, to_int, fabs}

  -- `BITS2RAW * calibfactor[i] * rawdata[i]` for each channel; BITS2RAW is 20.F/65536.F.
  unfoldable pub nominal : List Float → List ℤ → List Float
  nominal [] raw = []
  nominal (c ∷ cs) [] = []
  nominal (c ∷ cs) (r ∷ rs) = of_int (pos 20) ⊘ of_int (pos 65536) ⊗ c ⊗ of_int r ∷ nominal cs rs

  abbrev pub within : Float → Float → Float → Bool
  within time start end = start ≺ time && time ≺ end

  -- The command of the coil current algorithm for the power mode: disabled, voltage or current. In
  -- any other mode the command stays.
  unfoldable pub cc_command : ℕ → Config → Targets → Buffer Float → Result (Buffer Float)
  cc_command i c t precmd =
      let voltage : Result (Buffer Float) = (do v ← read t.ccvvs1 i; write precmd i v) in
      let current : Result (Buffer Float) = (do v ← read t.ccivs1 i; write precmd i v) in
      if is_int c.vs1mode 0
      then write precmd i nought
      else if is_int c.vs1mode 1
      then voltage
      else if is_int c.vs1mode 2
      then current
      else ok precmd

  -- The sum over the channels from `i` on, with the rounds left.
  unfoldable pub position_sum : ℕ → ℕ → List Float → Buffer Float → Float → Result Float
  position_sum zero i xs row acc = ok acc
  position_sum (suc left) i xs row acc = do
    x ← read_list xs i
    e ← read row (i - daq_fl01 + em_fl01)
    position_sum left (i + 1) xs row (acc ⊕ x ⊗ e)

  -- `zpos[vs_cycle]`, from its old value: the plasma current must reach the threshold.
  unfoldable pub position : ℕ → ℤ → Float → List Float → Config → Buffer Float → Result Float
  position i e ip xs c zpos = do
    old ← read zpos i
    let summed : Result Float = do
      j ← index e
      row ← read c.ematrix j
      position_sum (daq_mp20n - daq_fl01 + 1) daq_fl01 xs row old
    sum ← if widen c.ip_threshold ⊴ fabs (widen ip) then summed else ok nought
    ok (sum ⊘ ip)

  -- The part of the filtered error that is taken off the error, growing over the delay time.
  unfoldable pub slow_z : Float → Float → Float → Float → Float → Lpf → Float × Lpf
  slow_z time sztc szdt error derror s =
      let lbbtime = if s.lbbtime ≈ nought then time else s.lbbtime in
      let duration = time ⊖ lbbtime in
      let delay = widen szdt ⊠ lit 1 3 in
      let partial = narrow (widen error ⊟ widen duration ⧄ delay ⊠ widen derror) in
      if lit 1 4 ⊴ widen sztc ⊠ lit 1 3
      then (
        if widen duration ◁ delay then partial else error ⊖ derror,
        record s { lbbtime = lbbtime },
      )
      else (error, record s { lbbtime = nought })

  -- The gains and time constants of the cycle.
  unfoldable pub gains : ℕ → Targets → Result Gains
  gains i t = do
    gp ← read t.zx1gp i
    gd ← read t.zx1gd i
    gi ← read t.zx1gi i
    tp ← read t.zx1tp i
    td ← read t.zx1td i
    ti ← read t.zx1ti i
    ok (record { gp = gp; gd = gd; gi = gi; taup = tp; taud = td; taui = ti })

  -- `CalcVSParams(&s_in, &v_in, &out)`, on the library's state.
  abbrev pub Calc : Type 0 → Type 0
  Calc I = StcIn → VarIn → VsOut → I → VsOut × I

  module _ {I : Type 0} where
    -- The body of the limited algorithm in test mode.
    unfoldable pub limited_test : Vs I → Result (Vs I)
    limited_test s = do
      _ ← read s.targets.dummy_ip s.vs_cycle
      zx1 ← read s.targets.dummy_zx1 s.vs_cycle
      precmd ← write s.trace.precmd s.vs_cycle zx1
      ok (record s { trace = record s.trace { precmd = precmd } })

    -- The body in normal mode; `xs` is `nominaldata`. The PID is called for one element, with
    -- `in_calculate` and `in_use_gi`, which are always 1.
    unfoldable pub limited_normal : List Float → Float → Vs I → Result (Vs I)
    limited_normal xs time s = do
      let i = s.vs_cycle
      which_e ← read s.targets.which_e i
      which_m ← read s.targets.which_m i
      ip ← read_list xs daq_rl01
      z ← position i (to_int which_e) ip xs s.config s.trace.zpos
      zpos ← write s.trace.zpos i z
      ref ← read s.targets.zx1ref i
      sztc ← read s.targets.sztc i
      szdt ← read s.targets.szdt i
      let (derr, lpf) = low_pass_filter (ref ⊖ z) sztc time s.lpf
      derror ← write s.trace.derror i derr
      let (e, lpf') = slow_z time sztc szdt (ref ⊖ z) derr lpf
      error ← write s.trace.error i e
      g ← gains i s.targets
      old ← read s.scratch 0
      let (p, terms, new) = pid_element time g 1 1 e old
      pvector ← write s.trace.pvector i p
      scratch ← write s.scratch 0 new
      row ← index (to_int which_m)
      k ← read s.config.mmatrix row
      precmd ← write s.trace.precmd i (k ⊗ p)
      ok (record s {
        trace = record s.trace {
          zpos = zpos;
          error = error;
          derror = derror;
          pvector = pvector;
          precmd = precmd;
        };
        lpf = lpf';
        scratch = scratch;
        in_shape = terms.vout ∷ terms.dout ∷ terms.iout ∷ [];
      })

    -- `if(EXIST_CC)`, with the window of the phase.
    unfoldable pub coil_current : Float → Vs I → Result (Vs I)
    coil_current time s =
        let commanded : Result (Vs I) =
          (cc_command s.vs_cycle s.config s.targets s.trace.precmd >>= λ precmd.
          ok (record s { trace = record s.trace { precmd = precmd } })) in
        if s.algmask.cc && within time s.config.cc_st s.config.cc_et then commanded else ok s

    -- `if(EXIST_LM && EXIST_IP)`, with the window of the phase.
    unfoldable pub limited : Bool → List Float → Float → Vs I → Result (Vs I)
    limited istest xs time s =
        let body = if istest then limited_test s else limited_normal xs time s in
        if s.algmask.lm && s.algmask.ip && within time s.config.limit_st s.config.limit_et
        then body
        else ok s

    -- The last part: the command goes through the library, and its answer is recorded.
    unfoldable pub command : Calc I → Bool → List Float → Float → Vs I → Result (Vs I)
    command calc istest xs time s = do
      let i = s.vs_cycle
      ivs1 ← if istest then read s.targets.dummy_ivs1 i else read_list xs daq_ivs1
      cmd ← read s.trace.precmd i
      let v_in : VarIn = record {
        ivs1 = ivs1;
        time = time ⊗ of_int (pos 1000);
        vs1_ctrl_cmd = cmd;
        error = 0;
      }
      let (out, inst) = calc s.s_in v_in s.out s.inst
      fincmd ← write s.trace.fincmd i out.cmd_val
      fincmd_bit ← write s.trace.fincmd_bit i out.status
      ok (record s {
        trace = record s.trace { fincmd = fincmd; fincmd_bit = fincmd_bit };
        v_in = v_in;
        out = out;
        inst = inst;
        vs_cycle = i + 1;
      })

    -- The first part: the time of the cycle.
    unfoldable pub stamp : Float → Vs I → Result (Vs I)
    stamp time s = do
      timebase ← write s.trace.timebase s.vs_cycle time
      ok (record s {
        vs_time = time ⊖ s.config.limit_st;
        trace = record s.trace { timebase = timebase };
      })

    -- `fastz(rawdata, ctime)`; `calib` is `calibfactor`.
    unfoldable pub fastz : Calc I → Bool → List Float → List ℤ → Float → Vs I → Result (Vs I)
    fastz calc istest calib raw time s = do
      let xs = nominal calib raw
      s1 ← stamp time s
      s2 ← coil_current time s1
      s3 ← limited istest xs time s2
      command calc istest xs time s3

    -- The cycles of a shot: the raw data and the time of each.
    unfoldable pub fastz_run :
        Calc I → Bool → List Float → List (List ℤ × Float) → Vs I → Result (Vs I)
    fastz_run calc istest calib [] s = ok s
    fastz_run calc istest calib ((raw, time) ∷ rest) s = do
      s' ← fastz calc istest calib raw time s
      fastz_run calc istest calib rest s'
