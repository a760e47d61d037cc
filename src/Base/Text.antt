-- ===== src/Base/Text.antt =====
-- Text files as the program reads them. A text is its bytes. A line is what one call of `fgets`
-- delivers: up to a newline, which it keeps, or up to the size of the buffer.
use Prim.Native.Nat.{ℕ, ◌+◌, ◌≤◌, ◌<◌}
use native.Mathlib.Omega.{arith}
use daux4pcs2m.Base.Lists.{length}
use Prim.Native.Char.{code}
use Prim.Native.String.{String}
use mathlib.Core.Path.{◌≡◌, refl}
use mathlib.Core.Bool.{Bool, true, false, ◌&&◌, ◌||◌}
use mathlib.Core.List.{List, [], ◌∷◌}
use daux4pcs2m.Base.Tests.{◌==◌, if◌then◌else◌}
use daux4pcs2m.Base.Int.{ℤ}
use mathlib.Core.Option.{Option}

abbrev pub Text : Type 0
Text = List ℕ

abbrev pub codes : String → Text
codes String.[] = []
codes (String.◌∷◌ c s) = code c ∷ codes s

-- `strcmp(s, t) == 0`
unfoldable pub same_text : Text → Text → Bool
same_text [] [] = true
same_text [] (d ∷ t) = false
same_text (c ∷ s) [] = false
same_text (c ∷ s) (d ∷ t) = c == d && same_text s t

-- A stream: the lines left, the end-of-file mark, and whether the last line lacks its newline, in
-- which case reading it sets the mark.
pub record Stream : Type 0 where
  pub rest : List Text
  pub eof : Bool
  pub cut_short : Bool

deliver : Text → Stream → List Text → Text × Stream
deliver buf f [] = (buf, record f { eof = true })
deliver buf f (l ∷ []) = (l, record f { rest = []; eof = f.cut_short })
deliver buf f (l ∷ k ∷ ls) = (l, record f { rest = k ∷ ls })

-- `fgets(buf, ...)`: at the end of the file the buffer keeps its old text and the mark is set.
unfoldable pub fgets : Text → Stream → Text × Stream
unfolding deliver
fgets buf f = deliver buf f f.rest

-- The conversions of `sscanf`, after white space: a number at the front of a text, with what is
-- left of it. Reading a decimal float is the C library's business.
pub record Scan (F : Type 0) : Type 0 where
  pub scan_int : Text → Option (ℤ × Text)
  pub scan_float : Text → Option (F × Text)

abbrev is_delimiter : ℕ → Bool
is_delimiter c = c == b',' || c == b' '

-- Puts a byte in front of the first token, or makes it one before a delimiter.
glue : ℕ → Text → List Text → List Text
glue c [] ts = (c ∷ []) ∷ ts
glue c (d ∷ s) [] = (c ∷ []) ∷ []
glue c (d ∷ s) (t ∷ ts) = if is_delimiter d then (c ∷ []) ∷ t ∷ ts else (c ∷ t) ∷ ts

-- The tokens of `strtok(s, ", ")` and of `strtok(NULL, ", ")` behind it: the maximal runs of bytes
-- that are neither a comma nor a blank.
unfoldable pub tokens : Text → List Text
unfolding glue
tokens [] = []
tokens (c ∷ s) = if is_delimiter c then tokens s else glue c s (tokens s)

first_run : Text → Text
first_run [] = []
first_run (c ∷ s) = if is_delimiter c then [] else c ∷ first_run s

-- What `strtok` leaves of the text in its buffer: it ends the first token there.
unfoldable pub after_strtok : Text → Text
unfolding first_run
after_strtok [] = []
after_strtok (c ∷ s) = if is_delimiter c then c ∷ after_strtok s else c ∷ first_run s

-- Lines left to read, and the call that finds the end.
abbrev pub measure : Stream → ℕ
measure f = length f.rest + (if f.eof then 0 else 1)

pub measure-fgets : (buf : Text) (f : Stream) → measure (fgets buf f).1 ≤ measure f
unfolding fgets
measure-fgets buf f = deliver_measure f.rest refl
  where
    deliver_measure : (ls : List Text) → f.rest ≡ ls → measure (deliver buf f ls).1 ≤ measure f
    deliver_measure [] e = ground arith
    deliver_measure (l ∷ []) e = ground arith
    deliver_measure (l ∷ k ∷ ls) e = ground arith

pub fgets_shrinks : (buf : Text) (f : Stream) → f.eof ≡ false → measure (fgets buf f).1 < measure f
unfolding fgets
fgets_shrinks buf f h = deliver_shrinks f.rest refl
  where
    deliver_shrinks : (ls : List Text) → f.rest ≡ ls → measure (deliver buf f ls).1 < measure f
    deliver_shrinks [] e = ground arith
    deliver_shrinks (l ∷ []) e = ground arith
    deliver_shrinks (l ∷ k ∷ ls) e = ground arith
