-- ===== src/Daux/Main.antt =====
-- The loop over the shots in `main` of daux.c. What a shot gets from outside is an input: the
-- numbers of the message, the files and the data of the device. The message itself is in Loop, the
-- wait for the data in Armed; printing is not part of the model.
pub mod Answers
pub mod Serve
pub mod Prepared
pub mod Loop
pub mod Armed
pub mod Archived
pub mod Controlled
pub mod Whole
pub mod Served
pub mod Waiting
pub mod Start
pub mod Refines
use daux4pcs2m.Base.{
  ℕ, zero, suc, ◌+◌, ◌*◌, ◌/◌, Bool, true, false, List, [], ◌∷◌, Option, if◌then◌else◌,
}
use daux4pcs2m.Base.Int.{ℤ, pos, pos_part, ◌*ℤ◌}
use daux4pcs2m.Base.Text.{Text, codes, Stream}
use daux4pcs2m.Real.{Ieee, double_of, Float, Dbl, ◌⧄◌, nought}
use daux4pcs2m.Memory.Result.{Result, ok, err, ◌>>=◌}
use daux4pcs2m.Memory.Buffer.{Buffer, allocate, contents, free}
use daux4pcs2m.Memory.Copy.{memset}
use daux4pcs2m.Rfm.{Rfm2g}
use daux4pcs2m.Vs.State.{Vs}
use daux4pcs2m.Vs.Init.{Env, fastz_init}
use daux4pcs2m.Vs.Cycle.{Calc}
use daux4pcs2m.Vs.Archive.{
  Node, vsezx1, vspzx1, vsczx1, vscvs1, vscvs1b, vscvs1v, vscvs1i, Signal, save_fastz,
}
use daux4pcs2m.Vs.Clean.{fastz_clean}
use daux4pcs2m.Mds.{MdsLib, create_tree, open_tree}
use daux4pcs2m.Daq.{Acq}
use daux4pcs2m.Daq.Words.{write_word}
use daux4pcs2m.Daq.Scripts.{acq2106_start}
use daux4pcs2m.Daq.Setup.{nshorts}
use daux4pcs2m.Daux.Options.{Options}
use daux4pcs2m.Daux.Calib.{readcalib}
use daux4pcs2m.Daux.Shot.{Daq, cycles, chns}
use daux4pcs2m.Daux.Count.{rate, sample_count}
use daux4pcs2m.Daux.Signals.{save_signal}

-- What `memset(host_buffer, 0, VI_LEN); TLATCH(host_buffer)[0] = tl0;` leaves.
unfoldable pub arm : Acq → Result Acq
arm a = do
  clear ← memset a.host_buffer 0 nshorts
  marked ← write_word clear 0 (pos_part a.settings.nchan * 2 / 4) 0xdeadbeef
  ok (record a { host_buffer = marked })

-- The data of the cycles from `sss` on.
abbrev pub data_of : (ℕ → List ℤ) → ℕ → ℕ → List (List ℤ)
data_of device sss zero = []
data_of device sss (suc left) = device sss ∷ data_of device (sss + 1) left

abbrev pub server : Text
server = codes "mds-server"

abbrev pub tree : Text
tree = codes "fastz_hl2m"

-- `sbuf`
abbrev pub answer : Text
answer = codes "Abracadabra"

-- The names that `save_fastz` writes to.
abbrev pub node_name : Node → Text
node_name vsezx1 = codes "VSEZX1"
node_name vspzx1 = codes "VSPZX1"
node_name vsczx1 = codes "VSCZX1"
node_name vscvs1 = codes "VSCVS1"
node_name vscvs1b = codes "VSCVS1B"
node_name vscvs1v = codes "VSCVS1V"
node_name vscvs1i = codes "VSCVS1I"

-- A message and what the program finds when it arrives.
pub record Input : Type 0 where
  pub shot : ℤ
  pub total_time : ℤ
  pub zfile : Option Stream
  pub calib_file : Option (List Text)
  pub device : ℕ → List ℤ

module _ ⦃m : Ieee⦄ (lib : MdsLib) where
  open m use {widen, lit, of_int}

  -- The signals of the control go to the tree in order.
  unfoldable pub put_all : List Signal → lib.Session → lib.Session
  put_all [] s = s
  put_all (x ∷ xs) s = put_all xs (lib.put (node_name x.node) x.values x.times s).1

  pub record Program (api : Rfm2g) (I : Type 0) : Type 0 where
    pub acq : Acq
    pub daq : Daq api I
    -- `calibfactor`
    pub calib : Buffer Float
    pub zfbuf : Text
    pub session : lib.Session
    -- What went to the senders of the messages, the last one first.
    pub sent : List Text

  module _ {api : Rfm2g} {I : Type 0} (calc : Calc I) (create destroy : I → I) (env : Env)
      (o : Options) where
    -- The part up to the trigger, with the count of the cycles and their duration.
    unfoldable pub prepare : Input → Program api I → Result (ℕ × Dbl × Program api I)
    prepare i p = do
      r ← rate p.acq.clk_div
      n ← sample_count i.total_time p.acq.clk_div
      let tick = lit 1 0 ⧄ double_of r
      let started : Result (Vs I × Text) = fastz_init create env tick i.zfile p.zfbuf p.daq.vs
      session ← create_tree lib server tree i.shot p.session
      (vs, zfbuf) ← if o.acqonly then ok (p.daq.vs, p.zfbuf) else started
      (calib, count) ← readcalib env.scan i.calib_file p.calib
      armed ← arm p.acq
      acq ← acq2106_start lib.decimal o.cycle armed
      let fresh = allocate (pos chns *ℤ n) env.garbage.x
      let daq = record p.daq {
        timebase = allocate n nought;
        signal_data = if o.saveall then fresh else p.daq.signal_data;
        vs = vs;
      }
      ok (
        pos_part n,
        tick,
        record {
          acq = acq;
          daq = daq;
          calib = calib;
          zfbuf = zfbuf;
          session = session;
          sent = answer ∷ p.sent;
        },
      )

    -- The part behind the last cycle: the archive.
    unfoldable pub archive : ℤ → ℕ → Program api I → Result (Program api I)
    archive shot n p = do
      let (socket, opened) = open_tree lib server tree shot p.session
      let signals : Result lib.Session = save_signal lib p.daq.timebase p.daq.signal_data n opened
      let control : lib.Session → Result lib.Session =
          λ s. save_fastz p.daq.vs >>= λ xs. ok (put_all xs s)
      saved ← if o.saveall then signals else ok opened
      done ← if o.acqonly then ok saved else control saved
      ok (record p { session = (lib.close_shot tree shot done).1 })

    -- And the clean-up.
    unfoldable pub clean : Program api I → Result (Program api I)
    clean p = do
      timebase ← free p.daq.timebase
      let released = free p.daq.signal_data
      signal_data ← if o.saveall then released else ok p.daq.signal_data
      let cleaned = fastz_clean destroy p.daq.vs
      vs ← if o.acqonly then ok p.daq.vs else cleaned
      ok (record p {
        daq = record p.daq { timebase = timebase; signal_data = signal_data; vs = vs };
      })

    -- One round of the loop.
    unfoldable pub serve : Input → Program api I → Result (Program api I)
    serve i p = do
      (n, tick, p1) ← prepare i p
      calib ← contents p1.calib
      daq ← cycles calc o calib tick n 0 (data_of i.device 0 n) p1.daq
      p2 ← archive i.shot n (record p1 { daq = daq })
      clean p2

    unfoldable pub serve_all : List Input → Program api I → Result (Program api I)
    serve_all [] p = ok p
    serve_all (i ∷ is) p = do p' ← serve i p; serve_all is p'
