-- ===== src/Vs/Ztarget/Waves.antt =====
-- What `get_wave` of vscontrol.h reads from lines that hold a waveform.
use daux4pcs2m.Base.{
  ℕ, ◌+◌, ◌<◌, ltb, lt→ltb, true, ◌^◌, List, [], ◌∷◌, ◌++◌, some, ◌≡◌, refl, length, arith,
}
use daux4pcs2m.Base.Int.{pos}
use daux4pcs2m.Base.Text.{Text, Stream, fgets, Scan}
use daux4pcs2m.Real.{Ieee, Float}
use daux4pcs2m.Memory.Result.{ok}
use daux4pcs2m.Memory.Buffer.{live}
use daux4pcs2m.Vs.State.{Point, Wave}
use daux4pcs2m.Vs.Ztarget.{
  ◌>>=◌, lift, next_round, next_line, set_pair, read_points, get_wave, unsigned,
}

module _ ⦃m : Ieee⦄ (scan : Scan Float) (garbage : Point) where
  -- The line holds the coordinates of the point, whatever was in memory before.
  abbrev Holds : Text → Point → Type 0
  Holds l p = (x y : Float) → set_pair scan garbage (x, y) l ≡ (p.x, p.y)

  -- The lines hold the points, one each.
  abbrev pub HoldPoints : List Text → List Point → Type 0
  HoldPoints [] [] = Unit
  HoldPoints [] (p ∷ ps) = ⊥
  HoldPoints (l ∷ ls) [] = ⊥
  HoldPoints (l ∷ ls) (p ∷ ps) = Holds l p × HoldPoints ls ps

  abbrev last_line : Text → List Text → Text
  last_line l [] = l
  last_line l (k ∷ ls) = last_line k ls

module _ ⦃m : Ieee⦄ (scan : Scan Float) (garbage : Point) (f : Stream) (next : Text)
    (more : List Text) where
  open scan use {scan_int}

  -- The stream before the lines `ls`, and then `next` and `more`.
  abbrev pub before : List Text → Stream
  before ls = record f { rest = ls ++ next ∷ more }

  fgets_line : (buf l : Text) (ls : List Text) → fgets buf (before (l ∷ ls)) ≡ (l, before ls)
  unfolding fgets
  fgets_line buf l [] = refl
  fgets_line buf l (k ∷ ls) = refl

  read_next :
      (buf l : Text) (ls : List Text)
      → next_line (record { zfbuf = buf; stream = before (l ∷ ls) })
        ≡ ok (l, record { zfbuf = l; stream = before ls })
  unfolding next_line
  read_next buf l ls = rw (fgets_line buf l ls)

  read_points_lem :
      (i : ℕ) (ls : List Text) (ps : List Point) (buf : Text)
      → HoldPoints scan garbage ls ps
      → i + length ps < 2 ^ 31
      → read_points scan garbage i (length ps) (record { zfbuf = buf; stream = before ls })
        ≡ ok (ps, record { zfbuf = last_line scan garbage buf ls; stream = before [] })
  unfolding read_points next_round lift ◌>>=◌
  read_points_lem i [] [] buf h small = refl
  read_points_lem i [] (p ∷ ps) buf h small = absurd h
  read_points_lem i (l ∷ ls) [] buf h small = absurd h
  read_points_lem i (l ∷ ls) (p ∷ ps) buf (h, hs) small =
      let counts : ltb (i + 1) (2 ^ 31) ≡ true = lt→ltb (i + 1) (2 ^ 31) (omega arith) in
      rw (read_next buf l ls) (
        rw counts
          (rw (read_points_lem (i + 1) ls ps l hs (omega arith)) (rw (h garbage.x garbage.y))))

  -- A line with a count that fits an int, then as many lines that hold the points in order:
  -- `get_wave` makes an array of exactly these points and sets the count, whatever the wave was
  -- before, and the stream stands at the line behind them, which is not read.
  pub get_wave_lem :
      (old : Wave) (buf count s : Text) (n : ℕ) (ls : List Text) (ps : List Point)
      → scan_int count ≡ some (pos n, s)
      → n < 2 ^ 31
      → length ps ≡ n
      → HoldPoints scan garbage ls ps
      → (z : Text) × (get_wave scan garbage old
            (record { zfbuf = buf; stream = before (count ∷ ls) })
          ≡ ok (record { points = live ps; len = n }, record { zfbuf = z; stream = before [] }))
  unfolding get_wave ◌>>=◌
  get_wave_lem old buf count s n ls ps counted small size held = (
    last_line scan garbage count ls,
    rw (read_next buf count ls) (
        rw counted
          (rw unwrapped (rw (← size) (rw (read_points_lem 0 ls ps count held (omega arith)))))),
  )
    where
      unwrapped : unsigned (pos n) ≡ n
      unwrapped = omega arith
