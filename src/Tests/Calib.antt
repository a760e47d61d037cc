-- ===== src/Tests/Calib.antt =====
-- The calibration file of readcalib.h on concrete input.
use daux4pcs2m.Base.{ℕ, true, false, List, [], ◌∷◌, Option, none, some, ◌≡◌, refl, arith, inl, inr}
use daux4pcs2m.Base.Text.{Text, codes, Scan}
use daux4pcs2m.Memory.Result.{ok}
use daux4pcs2m.Memory.Buffer.{live, write}
use daux4pcs2m.Daux.Calib
use daux4pcs2m.Daux.Calib.{is_skipped}
use daux4pcs2m.Daux.Calib.Header.{readcalib, readcalib-vs_lines, read_lines, third}

abbrev first_byte : Text → Option (ℕ × Text)
first_byte [] = none
first_byte (c ∷ s) = some (c, s)

abbrev bytes : Scan ℕ
bytes = record { scan_int = λ s. none; scan_float = first_byte }

abbrev both_kinds : List Text
both_kinds =
    codes "! name factor\n"
    ∷ codes "Bpm1 7\n"
    ∷ codes "\n"
    ∷ codes "IVS1 8\n"
    ∷ codes "Bpf1 9\n"
    ∷ []

abbrev vs_only : List Text
vs_only = codes "Bpm1 7\n" ∷ codes "Bpf1 9\n" ∷ []

readcalib-vs_lines_example :
    (readcalib bytes false 55 (some both_kinds) (live (0 ∷ 0 ∷ 0 ∷ []))
      ≡ Calib.readcalib bytes (some both_kinds) (live (0 ∷ 0 ∷ 0 ∷ [])))
    × (readcalib bytes true 55 (some both_kinds) (live (0 ∷ 0 ∷ 0 ∷ []))
        ≡ Calib.readcalib bytes (some vs_only) (live (0 ∷ 0 ∷ 0 ∷ [])))
unfolding is_skipped third
readcalib-vs_lines_example =
    readcalib-vs_lines bytes 55 (some both_kinds) (live (0 ∷ 0 ∷ 0 ∷ []))
      (inl refl, (inr (omega arith), (inl refl, (inr (omega arith), (inr (omega arith), tt)))))

vs_read :
    readcalib bytes true 55 (some both_kinds) (live (0 ∷ 0 ∷ 0 ∷ []))
    ≡ ok (live (55 ∷ 57 ∷ 0 ∷ []), 2)
unfolding readcalib read_lines is_skipped third write
vs_read = refl
