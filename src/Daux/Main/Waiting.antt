-- ===== src/Daux/Main/Waiting.antt =====
-- What the loop over the shots of daux.c starts a shot with, and the parts of its preparation.
use daux4pcs2m.Base.{
  ℕ, zero, suc, ◌+◌, ◌*◌, ◌/◌, ◌≤◌, ◌<◌, List, [], ◌∷◌, some, ◌≡◌, refl, arith, length, ap,
}
use daux4pcs2m.Base.Int.{ℤ, pos, pos_part}
use daux4pcs2m.Base.Text.{Text, codes}
use daux4pcs2m.Real.{Ieee, Float}
use daux4pcs2m.Memory.Result.{ok}
use daux4pcs2m.Memory.Buffer.{Buffer, null, freed, live, HasSize}
use daux4pcs2m.Memory.Copy.{memset_within}
use daux4pcs2m.Rfm.{Rfm2g}
use daux4pcs2m.Vs.State.{Vs}
use daux4pcs2m.Vs.Init.{Env}
use daux4pcs2m.Mds.{MdsLib, set_tree, create_pulse}
use daux4pcs2m.Mds.Trees.{after}
use daux4pcs2m.Daq.{Acq}
use daux4pcs2m.Daq.Setup.{nshorts}
use daux4pcs2m.Daq.Words.{read_word, read_word-write_word}
use daux4pcs2m.Daux.Calib.{Hold}
use daux4pcs2m.Daux.Shot.{Daq, chns}
use daux4pcs2m.Daux.Shot.Acquire.{HaveData}
use daux4pcs2m.Daux.Count.{quotient, rate}
use daux4pcs2m.Daux.Main.{arm, data_of, server, tree, Input, Program}

pub arm_within :
    (a : Acq) (size : ℕ)
    → HasSize size a.host_buffer
    → nshorts ≤ size
    → pos_part a.settings.nchan * 2 / 4 * 2 + 1 < size
    → (c : Buffer ℕ) × (arm a ≡ ok (record a { host_buffer = c }))
      × HasSize size c
      × (read_word c 0 (pos_part a.settings.nchan * 2 / 4) ≡ ok 0xdeadbeef)
unfolding arm
arm_within a size h room marked =
    let (b, e, hb) = memset_within a.host_buffer 0 nshorts size h room in
    let (c, f, hc, r) =
      read_word-write_word b size 0 (pos_part a.settings.nchan * 2 / 4) 0xdeadbeef hb (omega arith)
        (omega arith) in
    (c, rw e (rw f refl), hc, r)

pub rate_fits : (d : ℕ) → 0 < d → (r : ℤ) × (rate (pos d) ≡ ok r)
unfolding quotient
rate_fits zero some_time = absurd (omega arith)
rate_fits (suc d) some_time = (pos (1000000 / suc d), refl)

pub contents_within :
    {A : Type 0} (b : Buffer A) (n : ℕ)
    → HasSize n b
    → (xs : List A) × (b ≡ live xs) × (length xs ≡ n)
contents_within null n h = absurd h
contents_within freed n h = absurd h
contents_within (live xs) n h = (xs, refl, h)

pub length-data_of : (device : ℕ → List ℤ) (sss left : ℕ) → length (data_of device sss left) ≡ left
length-data_of device sss zero = refl
length-data_of device sss (suc left) = ap suc (length-data_of device (sss + 1) left)

pub HaveData-data_of :
    (device : ℕ → List ℤ) (sss left : ℕ)
    → ((k : ℕ) → chns ≤ length (device k))
    → HaveData (data_of device sss left)
HaveData-data_of device sss zero full = _
HaveData-data_of device sss (suc left) full =
    (full sss, HaveData-data_of device (sss + 1) left full)

module _ ⦃m : Ieee⦄ (lib : MdsLib) {api : Rfm2g} {I : Type 0} where
  -- Between two shots: a cycle of `d` microseconds, the memory of the device with `size` shorts,
  -- which has room for the sample and for the latch, the arrays of the 96 channels, and a state of
  -- the control.
  pub record Waits (d size : ℕ) (s : Vs I) (p : Program lib api I) : Type 0 where
    pub cycle_time : p.acq.clk_div ≡ pos d
    pub some_time : 0 < d
    pub slow : d ≤ 1000000
    pub host : HasSize size p.acq.host_buffer
    pub sample : nshorts ≤ size
    pub latch : pos_part p.acq.settings.nchan * 2 / 4 * 2 + 1 < size
    pub calib : HasSize chns p.calib
    pub baseline : length p.daq.baseline ≡ chns
    pub vs : p.daq.vs ≡ s

  pub moved :
      {d size : ℕ} {s : Vs I} {p : Program lib api I}
      → Waits d size s p
      → (daq : Daq api I) (session : lib.Session) → length daq.baseline ≡ chns
      → daq.vs ≡ s
      → Waits d size s (record p { daq = daq; session = session })
  moved w daq session baseline vs = record {
    cycle_time = w.cycle_time;
    some_time = w.some_time;
    slow = w.slow;
    host = w.host;
    sample = w.sample;
    latch = w.latch;
    calib = w.calib;
    baseline = baseline;
    vs = vs;
  }

module _ ⦃m : Ieee⦄ (lib : MdsLib) where
  abbrev pub after_create : ℤ → lib.Session → lib.Session
  after_create shot session =
      after lib (set_tree lib tree ∷ create_pulse lib shot ∷ codes "close" ∷ [])
        (lib.connect server session).1

module _ ⦃m : Ieee⦄ (lib : MdsLib) (env : Env) where
  -- A message with a time that is not negative and below 2134 seconds, a calibration file of at most
  -- 96 numbers, and data of all channels in each cycle. The shot's number has at most 11 characters.
  pub record IsServable (i : Input) : Type 0 where
    pub time : ℕ
    pub total : i.total_time ≡ pos time
    pub short : time < 2134000000
    pub printed : length (lib.decimal i.shot) ≤ 11
    pub lines : List Text
    pub factors : List Float
    pub file : i.calib_file ≡ some lines
    pub hold : Hold env.scan lines factors
    pub few : length factors ≤ chns
    pub full : (k : ℕ) → chns ≤ length (i.device k)
