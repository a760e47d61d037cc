-- ===== src/Daux/Calib.antt =====
-- `readcalib` of daux.c: the calibration factors of the channels.
pub mod Header
pub mod Sizes
use daux4pcs2m.Base.{
  ℕ, suc, ◌+◌, ◌≤◌, Bool, true, false, ◌||◌, List, [], ◌∷◌, Option, none, some, ◌≡◌, arith, length,
  length-set, set, overwrite, ◌==◌, if◌then◌else◌,
}
use daux4pcs2m.Base.Text.{Text, Scan}
use daux4pcs2m.Memory.Result.{Result, ok, err, null_access, ◌>>=◌}
use daux4pcs2m.Memory.Buffer.{Buffer, live, write, write_live}

-- `isspace` of ctype.h: the blank and the bytes 9 to 13.
abbrev is_space : ℕ → Bool
is_space c = c == b' ' || c == 9 || c == 10 || c == 11 || c == 12 || c == 13

-- `buf[0]=='!' || isspace(buf[0])`
unfoldable pub is_skipped : Text → Bool
is_skipped [] = false
is_skipped (c ∷ s) = c == b'!' || is_space c

-- The text behind the last blank, from `strrchr`.
unfoldable pub after_last_space : Text → Option Text
after_last_space [] = none
after_last_space (c ∷ s) = elim (after_last_space s) [
  | some t ↦ some t
  | none ↦ if c == b' ' then some s else none
]

module _ {F : Type 0} (scan : Scan F) where
  open scan use {scan_float}

  abbrev pub put : Option (F × Text) → Buffer F → ℕ → Result (Buffer F)
  put none calibs c = ok calibs
  put (some (v, s)) calibs c = write calibs c v

  -- A line with data. Without a blank `strrchr` returns the null pointer, which `++lasts` makes
  -- another one that is no text and not null.
  abbrev pub data_line : Option Text → Buffer F → ℕ → Result (Buffer F)
  data_line none calibs c = err null_access
  data_line (some s) calibs c = put (scan_float s) calibs c

  -- The loop over the lines, with `calibs` and `c`. The count goes on when no number is found.
  unfoldable pub read_factors : List Text → Buffer F → ℕ → Result (Buffer F × ℕ)
  unfolding is_skipped after_last_space
  read_factors [] calibs c = ok (calibs, c)
  read_factors (l ∷ ls) calibs c =
      let kept = read_factors ls calibs c in
      let added : Result (Buffer F × ℕ) =
        (data_line (after_last_space l) calibs c >>= λ calibs'. read_factors ls calibs' (c + 1)) in
      if is_skipped l then kept else added

  -- `readcalib(file, calibs)`, where `none` is a file that cannot be opened.
  unfoldable pub readcalib : Option (List Text) → Buffer F → Result (Buffer F × ℕ)
  readcalib none calibs = err null_access
  readcalib (some ls) calibs = read_factors ls calibs 0

  -- The lines, but those that are skipped, hold these numbers behind their last blank.
  pub data Hold : List Text → List F → Type 0 where
    finished : Hold [] []
    comment :
        {l : Text} {ls : List Text} {vs : List F}
        → is_skipped l ≡ true
        → Hold ls vs
        → Hold (l ∷ ls) vs
    factor :
        {l s rest : Text} {v : F} {ls : List Text} {vs : List F}
        → is_skipped l ≡ false
        → after_last_space l ≡ some s
        → scan_float s ≡ some (v, rest)
        → Hold ls vs
        → Hold (l ∷ ls) (v ∷ vs)

  read_factors_lem :
      {ls : List Text} {vs : List F} (xs : List F) (c : ℕ)
      → Hold ls vs
      → c + length vs ≤ length xs
      → read_factors ls (live xs) c ≡ ok (live (overwrite xs c vs), c + length vs)
  unfolding read_factors
  read_factors_lem xs c finished room = let same : c + 0 ≡ c = omega arith in rw same
  read_factors_lem xs c (comment skipped h) room = rw skipped (read_factors_lem xs c h room)
  read_factors_lem xs c (factor {v = v} {vs = vs} counted found number h) room =
      let grown : c + suc (length vs) ≡ c + 1 + length vs = omega arith in
      let later : c + 1 + length vs ≤ length (set xs c v) = omega (arith, length-set xs c v) in
      rw counted (
        rw found (
          rw number (
            rw (write_live xs c v (omega arith))
              (rw grown (read_factors_lem (set xs c v) (c + 1) h later)))))

  -- A calibration file whose lines, but for comments and blank lines, hold numbers behind their last
  -- blank, and not more of them than there is room for: exactly these numbers are stored, in order
  -- from the first factor on, the other factors are kept, and the count of the numbers is returned.
  pub readcalib_lem :
      (ls : List Text) (vs xs : List F)
      → Hold ls vs
      → length vs ≤ length xs
      → readcalib (some ls) (live xs) ≡ ok (live (overwrite xs 0 vs), length vs)
  unfolding readcalib
  readcalib_lem ls vs xs h room =
      let plain : 0 + length vs ≡ length vs = omega arith in
      rw (read_factors_lem xs 0 h (omega arith)) (rw plain)
