-- ===== src/Daux/Shot.antt =====
-- The cycles of a shot in `main` of daux.c, with `run` and `process`, and
-- `acq2106_collect_baseline` of daq_helper.h. The data of a cycle is an argument here; the
-- wait for it is in Wait and Live.
pub mod Acquire
pub mod Table
pub mod Columns
pub mod Transmit
pub mod Wait
pub mod Live
pub mod Control
use daux4pcs2m.Base.{
  ℕ, zero, suc, ◌+◌, ◌-◌, Bool, true, false, List, [], ◌∷◌, ltb, ◌==◌, if◌then◌else◌,
}
use daux4pcs2m.Base.Int.{ℤ, pos}
use daux4pcs2m.Real.{Ieee, double_of, Float, Dbl, ◌⊕◌, ◌⊗◌, ◌⊘◌, ◌⊞◌, ◌⊠◌, nought}
use daux4pcs2m.Memory.Result.{Result, ok, err, ◌>>=◌}
use daux4pcs2m.Memory.Buffer.{Buffer, write, read_list}
use daux4pcs2m.Memory.Copy.{first}
use daux4pcs2m.Rfm.{Rfm2g}
use daux4pcs2m.Rfm.Helper.{Link, transmit, bytes_of_shorts}
use daux4pcs2m.Vs.State.{Vs}
use daux4pcs2m.Vs.Cycle.{Calc, fastz}
use daux4pcs2m.Daux.Options.{Options}

-- CHNS and NCBL
abbrev pub chns : ℕ
chns = 96

abbrev pub ncbl : ℕ
ncbl = 200

module _ ⦃m : Ieee⦄ where
  open m use {widen, narrow, lit, neg, of_int}

  -- `x * BITS2RAW`, where the macro is `20.F/65536.F` without parentheses.
  abbrev pub bits_to_raw : Float → Float
  bits_to_raw x = x ⊗ of_int (pos 20) ⊘ of_int (pos 65536)

  -- The loop over the channels, which adds the part of one cycle.
  unfoldable pub add_baseline : ℕ → List ℤ → List Float → List Float
  add_baseline total [] bs = bs
  add_baseline total (r ∷ rs) [] = []
  add_baseline total (r ∷ rs) (b ∷ bs) =
      (b ⊕ bits_to_raw (of_int r) ⊘ of_int (pos total)) ∷ add_baseline total rs bs

  abbrev pub cleared : List Float → List Float
  cleared [] = []
  cleared (b ∷ bs) = nought ∷ cleared bs

  unfoldable pub collect_baseline : ℕ → ℕ → List ℤ → List Float → List Float
  collect_baseline cycle total raw bs =
      add_baseline total raw (if cycle == 0 then cleared bs else bs)

  -- The globals of the acquisition, and the control. `signal_data` is the one array behind its 96
  -- pointers, each `nsamples` elements after the one before.
  pub record Daq (api : Rfm2g) (I : Type 0) : Type 0 where
    pub timebase : Buffer Float
    pub signal_data : Buffer Float
    pub baseline : List Float
    pub vs : Vs I
    -- `Handle` and `result` of rfm_helper.h
    pub link : Link api

  -- `signal_data[idx][sss] = ..` for the channels from `idx` on, with the rounds left; `start` is
  -- where the pointer of the channel leads.
  unfoldable pub save_channels :
      ℕ → ℕ → ℕ → ℕ → ℕ → List Float → List ℤ → List Float → Buffer Float → Result (Buffer Float)
  save_channels zero idx start nsamples sss calib raw baseline values = ok values
  save_channels (suc left) idx start nsamples sss calib raw baseline values = do
    r ← read_list raw idx
    c ← read_list calib idx
    b ← read_list baseline idx
    values' ← write values (start + sss) (bits_to_raw (of_int r ⊗ c) ⊕ b)
    save_channels left (idx + 1) (start + nsamples) nsamples sss calib raw baseline values'

  -- `current_time = -9.0 + 1.0 * sss * tick`
  abbrev pub time_of : Dbl → ℕ → Float
  time_of tick sss = narrow (neg (lit 9 0) ⊞ lit 1 0 ⊠ double_of (pos sss) ⊠ tick)

  module _ {api : Rfm2g} {I : Type 0} (calc : Calc I) (o : Options) (calib : List Float)
      (tick : Dbl) (nsamples : ℕ) where
    -- `process(data)`
    unfoldable pub process : List ℤ → Float → Link api → Vs I → Result (Link api × Vs I)
    process raw time link s = do
      sent ← first chns raw
      let control = fastz calc o.istest calib raw time s
      s' ← if o.acqonly then ok s else control
      ok (transmit api (bytes_of_shorts sent) link, s')

    -- `run(G_action)`, once the data is there.
    unfoldable pub run : ℕ → List ℤ → Daq api I → Result (Daq api I)
    run sss raw d =
        let bs = if ltb sss ncbl then collect_baseline sss ncbl raw d.baseline else d.baseline in
        let saved = save_channels chns 0 0 nsamples sss calib raw bs d.signal_data in
        (if o.saveall then saved else ok d.signal_data) >>= λ values.
        process raw (time_of tick sss) d.link d.vs >>= λ r.
        ok (record d { signal_data = values; baseline = bs; link = r.0; vs = r.1 })

    -- The loop over the cycles from `sss` on.
    unfoldable pub cycles : ℕ → List (List ℤ) → Daq api I → Result (Daq api I)
    cycles sss [] d = ok d
    cycles sss (raw ∷ raws) d = do
      d' ← run sss raw d
      timebase ← write d'.timebase sss (time_of tick sss)
      cycles (sss + 1) raws (record d' { timebase = timebase })
