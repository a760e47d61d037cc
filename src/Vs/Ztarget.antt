-- ===== src/Vs/Ztarget.antt =====
-- The reader of the ztarget file in vscontrol.h: `get_wave`, the `read_z_` functions for the
-- sections and `read_ztarget`. Their state is the buffer `zfbuf`, which keeps its text where a read
-- fails, and the stream. What `malloc` leaves in memory is the parameter `garbage`.
pub mod Waves
pub mod Ends
pub mod Mask
use daux4pcs2m.Base.{
  ℕ, zero, suc, ◌+◌, ◌-◌, ◌%◌, ◌^◌, Bool, true, false, List, [], ◌∷◌, Option, none, some,
  if◌then◌else◌, ◌==◌, ltb,
}
use daux4pcs2m.Base.Int.{ℤ, pos, negsuc}
use daux4pcs2m.Base.Text.{
  Text, codes, same_text, Stream, fgets, Scan, tokens, after_strtok, measure,
}
use daux4pcs2m.Real.{Ieee, Float}
use daux4pcs2m.Memory.Result.{Result, ok, err, overflow, unfinished, exited}
use daux4pcs2m.Memory.Buffer.{Buffer, live, allocate, write}
use daux4pcs2m.Vs.State.{Point, Wave, Config, AlgMask}

pub record Input : Type 0 where
  pub zfbuf : Text
  pub stream : Stream

-- An action on the file that may go wrong.
abbrev pub Read : Type 0 → Type 0
Read A = Input → Result (A × Input)

unfoldable pub pure : {A : Type 0} → A → Read A
pure a i = ok (a, i)

unfoldable pub lift : {A : Type 0} → Result A → Read A
lift (ok a) i = ok (a, i)
lift (err e) i = err e

abbrev continue : {A B : Type 0} → Result (A × Input) → (A → Read B) → Result (B × Input)
continue (ok (a, i)) f = f a i
continue (err e) f = err e

infixl 5 ◌>>=◌
unfoldable pub ◌>>=◌ : {A B : Type 0} → Read A → (A → Read B) → Read B
unfolding pure lift
◌>>=◌ m f i = continue (m i) f

-- `fgets(zfbuf, ZFBUFLEN, fp)`, with the new text of the buffer.
unfoldable pub next_line : Read Text
next_line i = let (l, f) = fgets i.zfbuf i.stream in ok (l, record { zfbuf = l; stream = f })

-- What `strtok` does to the buffer.
unfoldable pub spoil : Read Unit
spoil i = ok (tt, record i { zfbuf = after_strtok i.zfbuf })

-- `sscanf(s, "%d", &n)` into a signed and an unsigned int, which keep their value if it fails.
abbrev pub unsigned : ℤ → ℕ
unsigned (pos n) = n % 2 ^ 32
unsigned (negsuc n) = 2 ^ 32 - 1 - n % 2 ^ 32

-- `i++` on an int.
unfoldable pub next_round : ℕ → Result ℕ
next_round i = if ltb (i + 1) (2 ^ 31) then ok (i + 1) else err overflow

module _ ⦃m : Ieee⦄ (scan : Scan Float) (garbage : Point) where
  open scan use {scan_int, scan_float}

  set_int : ℤ → Option (ℤ × Text) → ℤ
  set_int old none = old
  set_int old (some (n, _)) = n

  set_unsigned : ℕ → Option (ℤ × Text) → ℕ
  set_unsigned old none = old
  set_unsigned old (some (n, _)) = unsigned n

  abbrev pub set_float : Float → Option (Float × Text) → Float
  set_float old none = old
  set_float old (some (x, _)) = x

  abbrev set_second : Float → Float → Text → Float × Float
  set_second x y [] = (x, y)
  set_second x y (c ∷ s) = if c == b',' then (x, set_float y (scan_float s)) else (x, y)

  abbrev set_first : Float → Float → Option (Float × Text) → Float × Float
  set_first x y none = (x, y)
  set_first x y (some (x', s)) = set_second x' y s

  -- `sscanf(s, "%f, %f\n", &x, &y)`: the second number is read only behind a comma.
  unfoldable pub set_pair : Float × Float → Text → Float × Float
  set_pair (x, y) s = set_first x y (scan_float s)

  abbrev point_of : Float × Float → Point
  point_of (x, y) = record { x = x; y = y }

  -- `read_points i n`: the loop of `get_wave` at `i`, an int, with `n` rounds left.
  unfoldable pub read_points : ℕ → ℕ → Read (List Point)
  unfolding next_round
  read_points i zero = pure []
  read_points i (suc n) = do
    line ← next_line
    next ← lift (next_round i)
    rest ← read_points next n
    pure (point_of (set_pair (garbage.x, garbage.y) line) ∷ rest)

  -- `get_wave(&wave, &wnum, fp)`; the wave before the call gives the count its old value.
  unfoldable pub get_wave : Wave → Read Wave
  unfolding set_unsigned
  get_wave old = do
    line ← next_line
    points ← read_points 0 (set_unsigned old.len (scan_int line))
    pure (record { points = live points; len = set_unsigned old.len (scan_int line) })

  unfoldable pub read_z_cc : Config → Read Config
  read_z_cc c = do
    line ← next_line
    ivs1 ← get_wave c.ivs1
    ivs2 ← get_wave c.ivs2
    vvs1 ← get_wave c.vvs1
    vvs2 ← get_wave c.vvs2
    let times = set_pair (c.cc_st, c.cc_et) line
    pure (record c {
      cc_st = times.0;
      cc_et = times.1;
      ivs1 = ivs1;
      ivs2 = ivs2;
      vvs1 = vvs1;
      vvs2 = vvs2;
    })

  -- The loop that reads `MMatrix`, a number on each line.
  unfoldable pub read_column : ℕ → Read (List Float)
  read_column zero = pure []
  read_column (suc n) = do
    line ← next_line
    rest ← read_column n
    pure (set_float garbage.x (scan_float line) ∷ rest)

  abbrev put_number : Buffer Float → ℕ → Option (Float × Text) → Result (Buffer Float)
  put_number row col none = ok row
  put_number row col (some (x, _)) = write row col x

  -- The loop over the tokens of a line: `EMatrix[i][col++]`.
  unfoldable pub fill_row : List Text → ℕ → Buffer Float → Read (Buffer Float)
  fill_row [] col row = pure row
  fill_row (t ∷ ts) col row = do
    row' ← lift (put_number row col (scan_float t))
    fill_row ts (col + 1) row'

  -- E_MATRIX_LEN
  abbrev pub e_matrix_len : ℕ
  e_matrix_len = 93

  -- The loop that reads `EMatrix`, a row on each line.
  unfoldable pub read_rows : ℕ → Read (List (Buffer Float))
  read_rows zero = pure []
  read_rows (suc n) = do
    line ← next_line
    _ ← spoil
    row ← fill_row (tokens line) 0 (allocate (pos e_matrix_len) garbage.x)
    rest ← read_rows n
    pure (row ∷ rest)

  -- The gains and the time constants.
  unfoldable pub read_z_gains : Config → Read Config
  read_z_gains c = do
    gp ← get_wave c.zx1gp
    gd ← get_wave c.zx1gd
    gi ← get_wave c.zx1gi
    tp ← get_wave c.zx1tp
    td ← get_wave c.zx1td
    ti ← get_wave c.zx1ti
    sztc ← get_wave c.sztc
    szdt ← get_wave c.szdt
    pure (record c {
      zx1gp = gp;
      zx1gd = gd;
      zx1gi = gi;
      zx1tp = tp;
      zx1td = td;
      zx1ti = ti;
      sztc = sztc;
      szdt = szdt;
    })

  unfoldable pub read_z_lm : Config → Read Config
  read_z_lm c = do
    line ← next_line
    zx1ref ← get_wave c.zx1ref
    which_m ← get_wave c.which_m
    mmatrix ← read_column which_m.len
    which_e ← get_wave c.which_e
    ematrix ← read_rows which_e.len
    let times = set_pair (c.limit_st, c.limit_et) line
    read_z_gains (record c {
      limit_st = times.0;
      limit_et = times.1;
      zx1ref = zx1ref;
      which_m = which_m;
      mmatrix = live mmatrix;
      which_e = which_e;
      ematrix = live ematrix;
    })

  unfoldable pub read_z_ip : Config → Read Config
  read_z_ip c = do ipref ← get_wave c.ipref; pure (record c { ipref = ipref })

  unfoldable pub read_z_fd : Config → Read Config
  read_z_fd c = do
    ipeoo ← get_wave c.ipeoo
    ipetl ← get_wave c.ipetl
    pure (record c { ipeoo = ipeoo; ipetl = ipetl })

  unfoldable pub read_z_sm : Config → Read Config
  unfolding set_int
  read_z_sm c = do
    mode1 ← next_line
    mode2 ← next_line
    times1 ← next_line
    times2 ← next_line
    threshold ← next_line
    dummy_ip ← get_wave c.dummy_ip
    dummy_zx1 ← get_wave c.dummy_zx1
    dummy_ivs1 ← get_wave c.dummy_ivs1
    let vs1 = set_pair (c.vs1_st, c.vs1_et) times1
    let vs2 = set_pair (c.vs2_st, c.vs2_et) times2
    pure (record c {
      vs1mode = set_int c.vs1mode (scan_int mode1);
      vs2mode = set_int c.vs2mode (scan_int mode2);
      vs1_st = vs1.0;
      vs1_et = vs1.1;
      vs2_st = vs2.0;
      vs2_et = vs2.1;
      ip_threshold = set_float c.ip_threshold (scan_float threshold);
      dummy_ip = dummy_ip;
      dummy_zx1 = dummy_zx1;
      dummy_ivs1 = dummy_ivs1;
    })

  -- The chain of `strcmp` on a line of the main loop.
  unfoldable pub read_section : Text → AlgMask × Config → Read (AlgMask × Config)
  read_section line (mask, c) =
      if same_text line (codes "coilcurrent\n")
      then (do c' ← read_z_cc c; pure (record mask { cc = true }, c'))
      else if same_text line (codes "limited\n")
      then (do c' ← read_z_lm c; pure (record mask { lm = true }, c'))
      else if same_text line (codes "ipcontrol\n")
      then (do c' ← read_z_ip c; pure (record mask { ip = true }, c'))
      else if same_text line (codes "faultdetection\n")
      then (do c' ← read_z_fd c; pure (record mask { fd = true }, c'))
      else if same_text line (codes "sysmain\n")
      then (do c' ← read_z_sm c; pure (record mask { sm = true }, c'))
      else pure (mask, c)

  -- `while (!feof(zfp))`, on fuel.
  unfoldable pub read_sections : ℕ → AlgMask × Config → Read (AlgMask × Config)
  read_sections zero s i = err unfinished
  read_sections (suc fuel) s i = elim i.stream.eof [
    | true ↦ ok (s, i)
    | false ↦ (next_line >>= λ line. read_section line s >>= λ s'. read_sections fuel s') i
  ]

  -- `read_ztarget(zfile)`: `none` is a file that cannot be opened. The text left in `zfbuf` is that
  -- of the shot before.
  unfoldable pub read_ztarget :
      ℕ → Option Stream → Text → AlgMask × Config → Result ((AlgMask × Config) × Input)
  read_ztarget fuel none zfbuf s = err exited
  read_ztarget fuel (some f) zfbuf s = read_sections fuel s (record { zfbuf = zfbuf; stream = f })
