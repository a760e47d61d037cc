-- ===== src/Vs/Ztarget/Ends.antt =====
-- The reader of the ztarget file ends: no action on the file gives lines back.
use daux4pcs2m.Base.{
  ℕ, zero, suc, ◌+◌, ◌≤◌, ◌<◌, Bool, true, false, List, [], ◌∷◌, Option, none, some, ◌≡◌, ◌≢◌, refl,
  arith, if◌then◌else◌, Bool-cases, inl, inr, ap, length,
}
use daux4pcs2m.Base.Text.{Text, Stream, fgets, Scan, tokens, measure, measure-fgets, fgets_shrinks}
use daux4pcs2m.Real.{Ieee, Float}
use daux4pcs2m.Memory.Result.{Result, ok, err, unfinished, err-injective}
use daux4pcs2m.Memory.Buffer.{Buffer, null, freed, live, write}
use daux4pcs2m.Vs.State.{Point, Wave, Config, AlgMask}
use daux4pcs2m.Vs.Ztarget.{
  Input, Read, pure, lift, continue, ◌>>=◌, next_line, spoil, next_round, put_number, read_points,
  get_wave, read_z_cc, read_column, fill_row, read_rows, read_z_gains, read_z_lm, read_z_ip,
  read_z_fd, read_z_sm, read_section, read_sections, read_ztarget,
}

abbrev Settles : {A : Type 0} → Input → Result (A × Input) → Type 0
Settles i (ok (a, j)) = measure j.stream ≤ measure i.stream
Settles i (err e) = e ≢ unfinished

-- The action gives no line back, and does not run out of fuel.
record IsSettled {A : Type 0} (m : Read A) : Type 0 where
  at : (i : Input) → Settles i (m i)

pure-IsSettled : {A : Type 0} (a : A) → IsSettled (pure a)
unfolding pure
pure-IsSettled a = record { at = λ i. omega arith }

bind-IsSettled :
    {A B : Type 0} {m : Read A} {f : A → Read B}
    → IsSettled m
    → ((a : A) → IsSettled (f a))
    → IsSettled (m >>= f)
unfolding ◌>>=◌
bind-IsSettled {A} {B} {m} {f} h k = record { at = λ i. onward i (m i) (h.at i) }
  where
    later :
        (i j : Input) (r : Result (B × Input))
        → measure j.stream ≤ measure i.stream
        → Settles j r
        → Settles i r
    later i j (ok (b, l)) le s = omega arith
    later i j (err e) le s = s

    onward : (i : Input) (r : Result (A × Input)) → Settles i r → Settles i (continue r f)
    onward i (ok (a, j)) s = later i j (f a j) s ((k a).at j)
    onward i (err e) s = s

next_line-IsSettled : IsSettled next_line
unfolding next_line
next_line-IsSettled = record { at = λ i. measure-fgets i.zfbuf i.stream }

spoil-IsSettled : IsSettled spoil
unfolding spoil
spoil-IsSettled = record { at = λ i. omega arith }

if-IsSettled :
    {A : Type 0} (b : Bool) {m n : Read A}
    → IsSettled m
    → IsSettled n
    → IsSettled (if b then m else n)
if-IsSettled true h k = h
if-IsSettled false h k = k

write-ne-unfinished : {A : Type 0} (b : Buffer A) (i : ℕ) (a : A) → write b i a ≢ err unfinished
unfolding write
write-ne-unfinished null i a = cc
write-ne-unfinished freed i a = cc
write-ne-unfinished (live xs) i a = ground arith

lift-IsSettled : {A : Type 0} (r : Result A) → r ≢ err unfinished → IsSettled (lift r)
unfolding lift
lift-IsSettled r h = record { at = λ i. settle i r h }
  where
    settle : {A : Type 0} (i : Input) (r : Result A) → r ≢ err unfinished → Settles i (lift r i)
    settle i (ok a) h = omega arith
    settle i (err e) h = λ q. h (ap err q)

next_round_ends : (i : ℕ) → next_round i ≢ err unfinished
unfolding next_round
next_round_ends i e = ground arith

module _ ⦃m : Ieee⦄ (scan : Scan Float) (garbage : Point) where
  open scan use {scan_float}

  read_points-IsSettled : (i n : ℕ) → IsSettled (read_points scan garbage i n)
  unfolding read_points
  read_points-IsSettled i zero = pure-IsSettled _
  read_points-IsSettled i (suc n) = bind-IsSettled next_line-IsSettled λ _.
      bind-IsSettled (lift-IsSettled (next_round i) (next_round_ends i))
        λ next. bind-IsSettled (read_points-IsSettled next n) λ _. pure-IsSettled _

  get_wave-IsSettled : (w : Wave) → IsSettled (get_wave scan garbage w)
  unfolding get_wave
  get_wave-IsSettled w =
      bind-IsSettled next_line-IsSettled
        λ _. bind-IsSettled (read_points-IsSettled _ _) λ _. pure-IsSettled _

  -- A get_wave in front of an action.
  then_wave :
      {A : Type 0} (w : Wave) {f : Wave → Read A}
      → ((v : Wave) → IsSettled (f v))
      → IsSettled (get_wave scan garbage w >>= f)
  then_wave w h = bind-IsSettled (get_wave-IsSettled w) h

  -- And a line.
  then_line :
      {A : Type 0} {f : Text → Read A}
      → ((l : Text) → IsSettled (f l))
      → IsSettled (next_line >>= f)
  then_line h = bind-IsSettled next_line-IsSettled h

  read_z_cc-IsSettled : (c : Config) → IsSettled (read_z_cc scan garbage c)
  unfolding read_z_cc
  read_z_cc-IsSettled c = then_line λ _.
      then_wave c.ivs1
        λ _. then_wave c.ivs2 λ _. then_wave c.vvs1 λ _. then_wave c.vvs2 λ _. pure-IsSettled _

  read_column-IsSettled : (n : ℕ) → IsSettled (read_column scan garbage n)
  unfolding read_column
  read_column-IsSettled zero = pure-IsSettled _
  read_column-IsSettled (suc n) =
      then_line λ _. bind-IsSettled (read_column-IsSettled n) λ _. pure-IsSettled _

  put_number-ne-unfinished :
      (row : Buffer Float) (col : ℕ) (o : Option (Float × Text))
      → put_number scan garbage row col o ≢ err unfinished
  put_number-ne-unfinished row col none = cc
  put_number-ne-unfinished row col (some (x, s)) = write-ne-unfinished row col x

  fill_row-IsSettled :
      (ts : List Text) (col : ℕ) (row : Buffer Float) → IsSettled (fill_row scan garbage ts col row)
  unfolding fill_row
  fill_row-IsSettled [] col row = pure-IsSettled _
  fill_row-IsSettled (t ∷ ts) col row =
      bind-IsSettled (lift-IsSettled _ (put_number-ne-unfinished row col (scan_float t)))
        λ row'. fill_row-IsSettled ts (col + 1) row'

  read_rows-IsSettled : (n : ℕ) → IsSettled (read_rows scan garbage n)
  unfolding read_rows
  read_rows-IsSettled zero = pure-IsSettled _
  read_rows-IsSettled (suc n) = then_line λ line. bind-IsSettled spoil-IsSettled λ _.
      bind-IsSettled (fill_row-IsSettled (tokens line) 0 _)
        λ _. bind-IsSettled (read_rows-IsSettled n) λ _. pure-IsSettled _

  read_z_gains-IsSettled : (c : Config) → IsSettled (read_z_gains scan garbage c)
  unfolding read_z_gains
  read_z_gains-IsSettled c = then_wave c.zx1gp λ _. then_wave c.zx1gd λ _. then_wave c.zx1gi λ _.
      then_wave c.zx1tp λ _.
        then_wave c.zx1td
          λ _. then_wave c.zx1ti λ _. then_wave c.sztc λ _. then_wave c.szdt λ _. pure-IsSettled _

  read_z_lm-IsSettled : (c : Config) → IsSettled (read_z_lm scan garbage c)
  unfolding read_z_lm
  read_z_lm-IsSettled c = then_line λ _. then_wave c.zx1ref λ _. then_wave c.which_m λ which_m.
      bind-IsSettled (read_column-IsSettled which_m.len) λ _.
        then_wave c.which_e
          λ which_e. bind-IsSettled (read_rows-IsSettled which_e.len) λ _. read_z_gains-IsSettled _

  read_z_ip-IsSettled : (c : Config) → IsSettled (read_z_ip scan garbage c)
  unfolding read_z_ip
  read_z_ip-IsSettled c = then_wave c.ipref λ _. pure-IsSettled _

  read_z_fd-IsSettled : (c : Config) → IsSettled (read_z_fd scan garbage c)
  unfolding read_z_fd
  read_z_fd-IsSettled c = then_wave c.ipeoo λ _. then_wave c.ipetl λ _. pure-IsSettled _

  read_z_sm-IsSettled : (c : Config) → IsSettled (read_z_sm scan garbage c)
  unfolding read_z_sm
  read_z_sm-IsSettled c = then_line λ _. then_line λ _. then_line λ _. then_line λ _. then_line λ _.
      then_wave c.dummy_ip
        λ _. then_wave c.dummy_zx1 λ _. then_wave c.dummy_ivs1 λ _. pure-IsSettled _

  read_section-IsSettled :
      (line : Text) (s : AlgMask × Config) → IsSettled (read_section scan garbage line s)
  unfolding read_section
  read_section-IsSettled line (mask, c) =
      if-IsSettled _ (bind-IsSettled (read_z_cc-IsSettled c) λ _. pure-IsSettled _) (
        if-IsSettled _ (bind-IsSettled (read_z_lm-IsSettled c) λ _. pure-IsSettled _) (
          if-IsSettled _ (bind-IsSettled (read_z_ip-IsSettled c) λ _. pure-IsSettled _) (
            if-IsSettled _ (bind-IsSettled (read_z_fd-IsSettled c) λ _. pure-IsSettled _) (
              if-IsSettled _ (bind-IsSettled (read_z_sm-IsSettled c) λ _. pure-IsSettled _)
                (pure-IsSettled _)))))

  -- One round of the loop uses a line up, or finds the end of the file.
  module _ (fuel : ℕ)
      (ends : (s : AlgMask × Config) (i : Input)
        → measure i.stream < fuel
        → read_sections scan garbage fuel s i ≢ err unfinished) where
    round_ends :
        (s : AlgMask × Config) (i j : Input)
        → measure j.stream < measure i.stream
        → measure i.stream < suc fuel
        → (r : Result ((AlgMask × Config) × Input)) → Settles j r
        → continue r (read_sections scan garbage fuel) ≢ err unfinished
    round_ends s i j less enough (ok (s', k)) settled = ends s' k (omega arith)
    round_ends s i j less enough (err e) settled = λ q. settled (err-injective q)

  read_sections_ends :
      (fuel : ℕ) (s : AlgMask × Config) (i : Input)
      → measure i.stream < fuel
      → read_sections scan garbage fuel s i ≢ err unfinished
  unfolding read_sections ◌>>=◌ next_line
  read_sections_ends zero s i enough = absurd (omega arith)
  read_sections_ends (suc fuel) s i enough = elim (Bool-cases i.stream.eof) [
    | inl done ↦ rw (done, read_sections) (cc)
    | inr more ↦
        let (line, f) = fgets i.zfbuf i.stream in
        let j : Input = record { zfbuf = line; stream = f } in
        rw (more, read_sections)
          (round_ends fuel (read_sections_ends fuel) s i j (fgets_shrinks i.zfbuf i.stream more)
            enough (read_section scan garbage line s j) ((read_section-IsSettled line s).at j))
  ]

  -- The loop over a ztarget file ends, on every file and whatever its lines hold: with fuel for one
  -- round more than the file has lines, and one more, `read_ztarget` returns or makes one of the
  -- memory faults, and never runs out.
  pub read_ztarget_ends :
      (fuel : ℕ) (f : Stream) (zfbuf : Text) (s : AlgMask × Config)
      → length f.rest + 1 < fuel
      → read_ztarget scan garbage fuel (some f) zfbuf s ≢ err unfinished
  unfolding read_ztarget
  read_ztarget_ends fuel f zfbuf s enough =
      read_sections_ends fuel s (record { zfbuf = zfbuf; stream = f }) (bound f.eof refl)
    where
      bound : (b : Bool) → f.eof ≡ b → measure f < fuel
      bound true e = rw e (omega arith)
      bound false e = rw e (omega arith)
