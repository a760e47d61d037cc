-- ===== src/Mds.antt =====
-- mds_helper.h: the trees and signals of the archive. The functions of the MDSplus library are an
-- interface; `Session` is its state. A status is odd for success. What `sprintf` prints for a number
-- is a parameter.
pub mod Trees
use daux4pcs2m.Base.{
  ℕ, ◌+◌, ◌%◌, Bool, true, false, List, [], ◌∷◌, ◌++◌, ◌==◌, ltb, length, if◌then◌else◌,
}
use daux4pcs2m.Base.Int.{ℤ, pos, negsuc}
use daux4pcs2m.Base.Text.{Text, codes}
use daux4pcs2m.Real.{Ieee, Float}
use daux4pcs2m.Memory.Print.{print_to}
use daux4pcs2m.Memory.Result.{Result, ok, err, out_of_bounds, ◌>>=◌}
use daux4pcs2m.Memory.Buffer.{Buffer}
use daux4pcs2m.Vs.Archive.{elements}

pub record MdsLib ⦃m : Ieee⦄ : Type 1 where
  pub Session : Type 0
  -- MdsConnect, with the socket or -1
  pub connect : Text → Session → ℤ × Session
  -- MdsValue of an expression, with its status and the answer, a long
  pub value : Text → Session → ℕ × ℤ × Session
  pub open_shot : Text → ℤ → Session → ℕ × Session
  pub close_shot : Text → ℤ → Session → ℕ × Session
  -- MdsPut of a signal at a node: its values and its times
  pub put : Text → List Float → List Float → Session → ℕ × Session
  -- `%d`
  pub decimal : ℤ → Text

abbrev pub status_ok : ℕ → Bool
status_ok status = status % 2 == 1

abbrev minus_one : ℤ
minus_one = negsuc 0

module _ ⦃m : Ieee⦄ (lib : MdsLib) where
  open lib use {Session, connect, value, open_shot, put, decimal}

  unfoldable pub get_size : Text → Session → Result (ℤ × Session)
  get_size sig_name s = do
    expression ← print_to 1024 (codes "SIZE(" ++ sig_name ++ codes ")")
    let (status, size, s') = value expression s
    ok (if status_ok status then size else minus_one, s')

  -- The text of `TCL("..",_output)`.
  abbrev pub tcl : Text → Text
  tcl cmd = codes "TCL(\"" ++ cmd ++ codes "\",_output)"

  -- One command, with its two arrays.
  unfoldable pub command : Text → Session → Result Session
  command text s = do
    cmd ← print_to 64 text
    cmd_tcl ← print_to 96 (tcl cmd)
    let (status, answer, s') = value cmd_tcl s
    ok s'

  abbrev pub set_tree : Text → Text
  set_tree db = codes "set tree " ++ db

  abbrev pub create_pulse : ℤ → Text
  create_pulse shot = codes "create pulse " ++ decimal shot

  -- A failed connection or command is only reported.
  unfoldable pub create_tree : Text → Text → ℤ → Session → Result Session
  create_tree host db shot s = do
    let (socket, s1) = connect host s
    s2 ← command (set_tree db) s1
    s3 ← command (create_pulse shot) s2
    command (codes "close") s3

  unfoldable pub open_tree : Text → Text → ℤ → Session → ℤ × Session
  open_tree serv tree shot s =
      let (socket, s1) = connect serv s in
      let (status, s2) = open_shot tree shot s1 in
      if socket_failed socket
      then (minus_one, s1)
      else if status_ok status
      then (socket, s2)
      else (minus_one, s2)
    where
      socket_failed : ℤ → Bool
      socket_failed (negsuc n) = n == 0
      socket_failed (pos n) = false

  -- `write_signal(node, x + first_x, y + first_y, len)`; an error is only reported.
  unfoldable pub write_signal :
      Text → Buffer Float → Buffer Float → ℕ → ℕ → Session → Result Session
  write_signal node x y start len s = do
    times ← elements len 0 x
    values ← elements len start y
    ok (put node values times s).1
