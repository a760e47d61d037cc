-- ===== src/Vs/State.antt =====
-- The globals of vscontrol.h, in groups. Pointers are buffers with one owner each; the unset ones
-- are null, as in the program's zero-initialised data.
use daux4pcs2m.Base.{ℕ, Bool, false, List, [], ◌∷◌, ◌==◌}
use daux4pcs2m.Base.Int.{ℤ, pos, negsuc}
use daux4pcs2m.Real.{Ieee, Float, nought}
use daux4pcs2m.Memory.Buffer.{Buffer, null}
use daux4pcs2m.Filter.{Lpf, lpf_init}
use daux4pcs2m.Pid.{Scratch}

-- `algmask`, a field for each of its bits: EXIST_CC, EXIST_LM, EXIST_IP, EXIST_FD and EXIST_SM.
pub record AlgMask : Type 0 where
  pub cc : Bool
  pub lm : Bool
  pub ip : Bool
  pub fd : Bool
  pub sm : Bool

-- The static and the variable input of `CalcVSParams`, and its output: the command and `vsVal`.
pub record StcIn : Type 0 where
  pub start : ℤ
  pub end : ℤ
  pub op_mode : ℤ

pub record VsOut : Type 0 where
  pub status : ℕ
  pub cmd_val : ℕ

abbrev pub is_int : ℤ → ℕ → Bool
is_int (pos n) k = n == k
is_int (negsuc n) k = false

module _ ⦃m : Ieee⦄ where
  pub record Point : Type 0 where
    pub x : Float
    pub y : Float

  pub record VarIn : Type 0 where
    pub ivs1 : Float
    pub time : Float
    pub vs1_ctrl_cmd : Float
    pub error : ℕ

  -- The vertices of a waveform and their count.
  pub record Wave : Type 0 where
    pub points : Buffer Point
    pub len : ℕ

  -- The data of the ztarget file.
  pub record Config : Type 0 where
    pub limit_st : Float
    pub limit_et : Float
    pub cc_st : Float
    pub cc_et : Float
    pub ivs1 : Wave
    pub ivs2 : Wave
    pub vvs1 : Wave
    pub vvs2 : Wave
    pub zx1ref : Wave
    pub zx1gp : Wave
    pub zx1gd : Wave
    pub zx1gi : Wave
    pub zx1tp : Wave
    pub zx1td : Wave
    pub zx1ti : Wave
    pub which_m : Wave
    pub mmatrix : Buffer Float
    pub which_e : Wave
    pub ematrix : Buffer (Buffer Float)
    pub sztc : Wave
    pub szdt : Wave
    pub ipref : Wave
    pub ipeoo : Wave
    pub ipetl : Wave
    pub vs1mode : ℤ
    pub vs2mode : ℤ
    pub vs1_st : Float
    pub vs1_et : Float
    pub vs2_st : Float
    pub vs2_et : Float
    pub ip_threshold : Float
    pub dummy_zx1 : Wave
    pub dummy_ip : Wave
    pub dummy_ivs1 : Wave

  -- The waveforms sampled at the control cycle.
  pub record Targets : Type 0 where
    pub ccivs1 : Buffer Float
    pub ccivs2 : Buffer Float
    pub ccvvs1 : Buffer Float
    pub ccvvs2 : Buffer Float
    pub zx1ref : Buffer Float
    pub zx1gp : Buffer Float
    pub zx1gd : Buffer Float
    pub zx1gi : Buffer Float
    pub zx1tp : Buffer Float
    pub zx1td : Buffer Float
    pub zx1ti : Buffer Float
    pub szdt : Buffer Float
    pub sztc : Buffer Float
    pub which_e : Buffer Float
    pub which_m : Buffer Float
    pub ipref : Buffer Float
    pub ipeoo : Buffer Float
    pub ipetl : Buffer Float
    pub dummy_zx1 : Buffer Float
    pub dummy_ip : Buffer Float
    pub dummy_ivs1 : Buffer Float

  -- What a shot records, a sample in each cycle.
  pub record Trace : Type 0 where
    pub timebase : Buffer Float
    pub zpos : Buffer Float
    pub error : Buffer Float
    pub derror : Buffer Float
    pub pvector : Buffer Float
    pub precmd : Buffer Float
    pub fincmd : Buffer ℕ
    pub fincmd_bit : Buffer ℕ

  -- `I` is the state of the library that `CalcVSParams` belongs to.
  pub record Vs (I : Type 0) : Type 0 where
    pub algmask : AlgMask
    pub vs_cycle : ℕ
    pub vs_time : Float
    pub vs_interval : Float
    pub vs_samples : ℤ
    pub config : Config
    pub targets : Targets
    pub trace : Trace
    pub lpf : Lpf
    pub scratch : Buffer Scratch
    pub in_shape : List Float
    pub s_in : StcIn
    pub v_in : VarIn
    pub out : VsOut
    pub inst : I

  abbrev pub no_wave : Wave
  no_wave = record { points = null; len = 0 }

  abbrev pub config_init : Config
  config_init = record {
    limit_st = nought;
    limit_et = nought;
    cc_st = nought;
    cc_et = nought;
    ivs1 = no_wave;
    ivs2 = no_wave;
    vvs1 = no_wave;
    vvs2 = no_wave;
    zx1ref = no_wave;
    zx1gp = no_wave;
    zx1gd = no_wave;
    zx1gi = no_wave;
    zx1tp = no_wave;
    zx1td = no_wave;
    zx1ti = no_wave;
    which_m = no_wave;
    mmatrix = null;
    which_e = no_wave;
    ematrix = null;
    sztc = no_wave;
    szdt = no_wave;
    ipref = no_wave;
    ipeoo = no_wave;
    ipetl = no_wave;
    vs1mode = pos 0;
    vs2mode = pos 0;
    vs1_st = nought;
    vs1_et = nought;
    vs2_st = nought;
    vs2_et = nought;
    ip_threshold = nought;
    dummy_zx1 = no_wave;
    dummy_ip = no_wave;
    dummy_ivs1 = no_wave;
  }

  abbrev pub targets_init : Targets
  targets_init = record {
    ccivs1 = null;
    ccivs2 = null;
    ccvvs1 = null;
    ccvvs2 = null;
    zx1ref = null;
    zx1gp = null;
    zx1gd = null;
    zx1gi = null;
    zx1tp = null;
    zx1td = null;
    zx1ti = null;
    szdt = null;
    sztc = null;
    which_e = null;
    which_m = null;
    ipref = null;
    ipeoo = null;
    ipetl = null;
    dummy_zx1 = null;
    dummy_ip = null;
    dummy_ivs1 = null;
  }

  abbrev pub trace_init : Trace
  trace_init = record {
    timebase = null;
    zpos = null;
    error = null;
    derror = null;
    pvector = null;
    precmd = null;
    fincmd = null;
    fincmd_bit = null;
  }

  -- The globals before the first shot, with the library's state.
  abbrev pub vs_init : {I : Type 0} → I → Vs I
  vs_init i = record {
    algmask = record { cc = false; lm = false; ip = false; fd = false; sm = false };
    vs_cycle = 0;
    vs_time = nought;
    vs_interval = nought;
    vs_samples = pos 0;
    config = config_init;
    targets = targets_init;
    trace = trace_init;
    lpf = lpf_init;
    scratch = null;
    in_shape = nought ∷ nought ∷ nought ∷ [];
    s_in = record { start = pos 0; end = pos 0; op_mode = pos 0 };
    v_in = record { ivs1 = nought; time = nought; vs1_ctrl_cmd = nought; error = 0 };
    out = record { status = 0; cmd_val = 0 };
    inst = i;
  }
