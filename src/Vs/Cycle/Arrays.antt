-- ===== src/Vs/Cycle/Arrays.antt =====
-- The arrays that the cycles of vscontrol.h's `fastz` need, and the steps that only read and write
-- them.
use daux4pcs2m.Base.{
  ℕ, zero, suc, ◌+◌, ◌-◌, ◌≤◌, ◌<◌, List, [], ◌∷◌, ◌≡◌, refl, ap, arith, length, Bool-cases, inl,
  inr, All,
}
use daux4pcs2m.Base.Int.{ℤ, pos}
use daux4pcs2m.Real.{Ieee, Float, ◌⊗◌, ◌⊕◌, ◌⊴◌, ◌⊘◌, nought}
use daux4pcs2m.Memory.Result.{ok, Ends, Ends-ok}
use daux4pcs2m.Memory.Buffer.{Buffer, HasSize, read, read_within, write_within, read_list_within}
use daux4pcs2m.Pid.{Gains}
use daux4pcs2m.Vs.State.{Trace, Targets, Config, is_int}
use daux4pcs2m.Vs.Cycle.{cc_command, gains, position, position_sum, nominal, daq_fl01, em_fl01}

module _ ⦃m : Ieee⦄ where
  open m use {to_int, widen, fabs}

  -- The matrices have a row for each number that a step wave selects.
  pub record HasRows (c : Config) (t : Targets) : Type 0 where
    pub e_row :
        (i : ℕ) (v : Float)
        → read t.which_e i ≡ ok v
        → (k : ℕ) × (to_int v ≡ pos k)
          × (row : Buffer Float) × (read c.ematrix k ≡ ok row)
          × HasSize 93 row
    pub m_row :
        (i : ℕ) (v : Float)
        → read t.which_m i ≡ ok v
        → (k : ℕ) × (to_int v ≡ pos k) × (a : Float) × (read c.mmatrix k ≡ ok a)

  -- What the limited algorithm reads.
  pub record LmReady (n : ℕ) (t : Targets) : Type 0 where
    pub zx1ref : HasSize n t.zx1ref
    pub gp : HasSize n t.zx1gp
    pub gd : HasSize n t.zx1gd
    pub gi : HasSize n t.zx1gi
    pub tp : HasSize n t.zx1tp
    pub td : HasSize n t.zx1td
    pub ti : HasSize n t.zx1ti
    pub sztc : HasSize n t.sztc
    pub szdt : HasSize n t.szdt
    pub which_e : HasSize n t.which_e
    pub which_m : HasSize n t.which_m

  -- The arrays of a shot have a size.
  pub record TraceReady (n : ℕ) (r : Trace) : Type 0 where
    pub timebase : HasSize n r.timebase
    pub zpos : HasSize n r.zpos
    pub error : HasSize n r.error
    pub derror : HasSize n r.derror
    pub pvector : HasSize n r.pvector
    pub precmd : HasSize n r.precmd
    pub fincmd : HasSize n r.fincmd
    pub fincmd_bit : HasSize n r.fincmd_bit

  -- A channel for each calibration factor.
  pub length-nominal :
      (calib : List Float) (raw : List ℤ)
      → length calib ≤ length raw
      → length (nominal calib raw) ≡ length calib
  unfolding nominal
  length-nominal [] raw h = refl
  length-nominal (c ∷ cs) [] h = absurd (omega arith)
  length-nominal (c ∷ cs) (r ∷ rs) h = ap suc (length-nominal cs rs (omega arith))

  pub position_sum_ok :
      (left i : ℕ) (xs : List Float) (row : Buffer Float) (acc : Float)
      → i + left ≤ length xs
      → 24 ≤ i
      → i + left ≤ 96
      → HasSize 93 row
      → (v : Float) × (position_sum left i xs row acc ≡ ok v)
  unfolding position_sum
  position_sum_ok zero i xs row acc inside low high size = (acc, refl)
  position_sum_ok (suc left) i xs row acc inside low high size =
      let (x, ex) = read_list_within xs i (omega arith) in
      let (e, ee) = read_within row 93 (i - daq_fl01 + em_fl01) size (omega arith) in
      let (v, ev) =
        position_sum_ok left (i + 1) xs row (acc ⊕ x ⊗ e) (omega arith) (omega arith) (omega arith)
          size in
      (v, rw ex (rw ee ev))

  pub position_ok :
      (n i : ℕ) (e : ℤ) (k : ℕ) (ip : Float) (xs : List Float) (c : Config)
      (zpos row : Buffer Float)
      → HasSize n zpos
      → i < n
      → e ≡ pos k
      → read c.ematrix k ≡ ok row
      → HasSize 93 row
      → length xs ≡ 96
      → (v : Float) × (position i e ip xs c zpos ≡ ok v)
  unfolding position
  position_ok n i e k ip xs c zpos row size below ek er rows channels =
      let (old, eo) = read_within zpos n i size below in
      let (v, ev) =
        position_sum_ok 72 24 xs row old (omega arith) (omega arith) (omega arith) rows in
      elim (Bool-cases (widen c.ip_threshold ⊴ fabs (widen ip))) [
        | inl reached ↦ (v ⊘ ip, rw eo (rw reached (rw ek (rw er (rw ev refl)))))
        | inr short ↦ (nought ⊘ ip, rw eo (rw short refl))
      ]

  pub gains_ok : (n i : ℕ) (t : Targets) → LmReady n t → i < n → (g : Gains) × (gains i t ≡ ok g)
  unfolding gains
  gains_ok n i t l below =
      let (gp, a) = read_within t.zx1gp n i l.gp below in
      let (gd, b) = read_within t.zx1gd n i l.gd below in
      let (gi, c) = read_within t.zx1gi n i l.gi below in
      let (tp, d) = read_within t.zx1tp n i l.tp below in
      let (td, e) = read_within t.zx1td n i l.td below in
      let (ti, f) = read_within t.zx1ti n i l.ti below in
      (
        record { gp = gp; gd = gd; gi = gi; taup = tp; taud = td; taui = ti },
        rw a (rw b (rw c (rw d (rw e (rw f refl))))),
      )

  pub cc_command_ready :
      (n i : ℕ) (c : Config) (t : Targets) (precmd : Buffer Float)
      → HasSize n t.ccvvs1
      → HasSize n t.ccivs1
      → HasSize n precmd
      → i < n
      → Ends (HasSize n) (cc_command i c t precmd)
  unfolding cc_command
  cc_command_ready n i c t precmd hv hi h below =
      let (v, ev) = read_within t.ccvvs1 n i hv below in
      let (a, ea) = read_within t.ccivs1 n i hi below in
      let (p, ep, sp, _) = write_within precmd n i nought h below in
      let (q, eq, sq, _) = write_within precmd n i v h below in
      let (r, er, sr, _) = write_within precmd n i a h below in
      elim (Bool-cases (is_int c.vs1mode 0)) [
        | inl disabled ↦ rw disabled (rw ep (Ends-ok p sp))
        | inr enabled ↦ rw enabled (elim (Bool-cases (is_int c.vs1mode 1)) [
          | inl voltage ↦ rw voltage (rw ev (rw eq (Ends-ok q sq)))
          | inr other ↦ rw other (elim (Bool-cases (is_int c.vs1mode 2)) [
            | inl current ↦ rw current (rw ea (rw er (Ends-ok r sr)))
            | inr unknown ↦ rw unknown (Ends-ok precmd h)
          ])
        ])
      ]

  -- Each cycle brings the raw data of all channels.
  abbrev pub HaveChannels : List (List ℤ × Float) → Type 0
  HaveChannels = All λ c. 96 ≤ length c.0
