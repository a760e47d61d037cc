-- ===== src/Daux/Calib/Header.antt =====
-- `readcalib` of readcalib.h, another version of the one in daux.c: it reads doubles, and compiled
-- with ONLY_VS it looks at the third byte of a line.
use daux4pcs2m.Base.{
  ℕ, ◌+◌, ◌≤◌, Bool, true, false, ◌&&◌, not, List, [], ◌∷◌, All, Option, none, some, ◌≡◌, ◌∙◌, ap,
  Bool-cases, ◌⊎◌, inl, inr, refl, arith, length, ◌==◌, if◌then◌else◌,
}
use mathlib.Core.Option
use daux4pcs2m.Base.Text.{Text, Scan}
use daux4pcs2m.Memory.Result.{Result, ok, err, null_access, ◌>>=◌}
use daux4pcs2m.Memory.Buffer.{Buffer}
use daux4pcs2m.Daux.Calib
use daux4pcs2m.Daux.Calib.{is_skipped, after_last_space, data_line, read_factors}

-- `buf[2]`, with the byte that was there before the line came, which a line of one byte leaves.
unfoldable pub third : ℕ → Text → ℕ
third old [] = old
third old (a ∷ []) = old
third old (a ∷ b ∷ []) = 0
third old (a ∷ b ∷ c ∷ s) = c

-- `buf[2]!='m' && buf[2]!='f'`
abbrev pub is_other : ℕ → Bool
is_other c = not (c == b'm') && not (c == b'f')

module _ {F : Type 0} (scan : Scan F) where
  -- The loop over the lines, with `buf[2]` and the switch ONLY_VS.
  unfoldable pub read_lines : Bool → ℕ → List Text → Buffer F → ℕ → Result (Buffer F × ℕ)
  unfolding is_skipped after_last_space third
  read_lines only_vs old [] calibs c = ok (calibs, c)
  read_lines only_vs old (l ∷ ls) calibs c =
      let kept = read_lines only_vs (third old l) ls calibs c in
      let added : Result (Buffer F × ℕ) =
        (data_line scan (after_last_space l) calibs c >>= λ calibs'.
        read_lines only_vs (third old l) ls calibs' (c + 1)) in
      if is_skipped l then kept else if only_vs && is_other (third old l) then kept else added

  -- `readcalib(file, calibs)`, with what is in `buf[2]` before the first line.
  unfoldable pub readcalib : Bool → ℕ → Option (List Text) → Buffer F → Result (Buffer F × ℕ)
  readcalib only_vs junk none calibs = err null_access
  readcalib only_vs junk (some ls) calibs = read_lines only_vs junk ls calibs 0

  -- The lines that ONLY_VS leaves.
  abbrev pub vs_lines : List Text → List Text
  vs_lines [] = []
  vs_lines (l ∷ ls) = let rest = vs_lines ls in if is_other (third 0 l) then rest else l ∷ rest

  -- A line with data has two bytes or more.
  abbrev pub IsUsual : Text → Type 0
  IsUsual l = is_skipped l ≡ true ⊎ 2 ≤ length l

  abbrev pub AllUsual : Option (List Text) → Type 0
  AllUsual none = Unit
  AllUsual (some ls) = All IsUsual ls

  third_usual : (old : ℕ) (l : Text) → 2 ≤ length l → third old l ≡ third 0 l
  unfolding third
  third_usual old [] usual = absurd (omega arith)
  third_usual old (a ∷ []) usual = absurd (omega arith)
  third_usual old (a ∷ b ∷ []) usual = refl
  third_usual old (a ∷ b ∷ c ∷ s) usual = refl

  read_lines_all :
      (old c : ℕ) (ls : List Text) (calibs : Buffer F)
      → read_lines false old ls calibs c ≡ read_factors scan ls calibs c
  unfolding read_lines read_factors
  read_lines_all old c [] calibs = refl
  read_lines_all old c (l ∷ ls) calibs = λ i.
      if is_skipped l
      then read_lines_all (third old l) c ls calibs i
      else (data_line scan (after_last_space l) calibs c >>= λ calibs'.
          read_lines_all (third old l) (c + 1) ls calibs' i)

  read_lines_vs :
      (old c : ℕ) (ls : List Text) (calibs : Buffer F)
      → All IsUsual ls
      → read_lines true old ls calibs c ≡ read_factors scan (vs_lines ls) calibs c
  unfolding read_lines read_factors
  read_lines_vs old c [] calibs usual = refl
  read_lines_vs old c (l ∷ ls) calibs (inl skipped, rest) =
      let kept = read_lines_vs (third old l) c ls calibs rest in
      elim (Bool-cases (is_other (third 0 l))) [
        | inl other ↦ rw other (rw skipped kept)
        | inr vs ↦ rw vs (rw skipped kept)
      ]
  read_lines_vs old c (l ∷ ls) calibs (inr long, rest) =
      let kept = read_lines_vs (third old l) c ls calibs rest in
      let same = ap is_other (third_usual old l long) in
      elim (Bool-cases (is_other (third 0 l))) [
        | inl other ↦
            let other' = same ∙ other in
            elim (Bool-cases (is_skipped l)) [
              | inl skipped ↦ rw other (rw skipped kept)
              | inr counted ↦ rw other (rw counted (rw other' kept))
            ]
        | inr vs ↦
            let vs' = same ∙ vs in
            rw vs (
              rw vs' λ i.
                if is_skipped l
                then kept i
                else (data_line scan (after_last_space l) calibs c >>= λ calibs'.
                    read_lines_vs (third old l) (c + 1) ls calibs' rest i))
      ]

  -- For a file in which each line has at least two bytes, but for comments and lines that begin with
  -- a blank, and whatever is in the array for the lines at first: compiled without ONLY_VS, this
  -- version reads what the one of daux.c reads; with ONLY_VS it reads what that one reads of the file
  -- without the lines whose third byte is neither `m` nor `f`. A file that cannot be opened is the
  -- same fault in both.
  pub readcalib-vs_lines :
      (junk : ℕ) (file : Option (List Text)) (calibs : Buffer F)
      → AllUsual file
      → (readcalib false junk file calibs ≡ Calib.readcalib scan file calibs)
        × (readcalib true junk file calibs ≡ Calib.readcalib scan (Option.map vs_lines file) calibs)
  unfolding readcalib Calib.readcalib
  readcalib-vs_lines junk none calibs usual = (refl, refl)
  readcalib-vs_lines junk (some ls) calibs usual =
      (read_lines_all junk 0 ls calibs, read_lines_vs junk 0 ls calibs usual)
