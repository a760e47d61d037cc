-- ===== src/Daux/Options.antt =====
-- The options of the program: the loop over `getopt` in `main` of daux.c.
use daux4pcs2m.Base.{Bool, true, false, ◌&&◌, List, [], ◌∷◌, ◌++◌, ◌≡◌, refl, arith, All}
use daux4pcs2m.Base.Int.{ℤ, pos}
use daux4pcs2m.Base.Text.{Text, codes}
use daux4pcs2m.Memory.Result.{Result, ok, err, exited, ◌>>=◌}

-- What `getopt` returns, with the argument; `-a` and `-c` have theirs as `atoi` reads it. Anything
-- unknown is `usage`.
pub data Flag : Type 0 where
  affinity cycle : ℤ → Flag
  zfile : Text → Flag
  no_save test acquire usage : Flag

-- The variables that the options set.
pub record Options : Type 0 where
  pub affinity : ℤ
  pub cycle : ℤ
  pub zfile : Text
  pub saveall : Bool
  pub istest : Bool
  pub acqonly : Bool

abbrev pub options_init : Options
options_init = record {
  affinity = pos 1;
  cycle = pos 50;
  zfile = codes "/link/ops/data_hl2m/ztargrt.dat";
  saveall = true;
  istest = false;
  acqonly = false;
}

-- The switch. `zfile` has 64 bytes, and longer paths are not modelled.
unfoldable pub set_option : Flag → Options → Result Options
set_option (affinity n) o = ok (record o { affinity = n })
set_option (cycle n) o = ok (record o { cycle = n })
set_option (zfile path) o = ok (record o { zfile = path })
set_option no_save o = ok (record o { saveall = false })
set_option test o =
    ok (record o { istest = true; zfile = codes "/link/ops/data_hl2m/test_ztarget.dat" })
set_option acquire o = ok (record o { acqonly = true; saveall = true })
set_option usage o = err exited

unfoldable pub parse : List Flag → Options → Result Options
parse [] o = ok o
parse (f ∷ fs) o = do o' ← set_option f o; parse fs o'

abbrev pub KeepsSaving : Flag → Type 0
KeepsSaving (affinity n) = Unit
KeepsSaving (cycle n) = Unit
KeepsSaving (zfile path) = Unit
KeepsSaving no_save = ⊥
KeepsSaving test = Unit
KeepsSaving acquire = Unit
KeepsSaving usage = ⊥

abbrev saves_only : Options → Bool
saves_only o = o.acqonly && o.saveall

parse_after :
    (fs : List Flag) (o : Options)
    → All KeepsSaving fs
    → saves_only o ≡ true
    → (o' : Options) × (parse fs o ≡ ok o') × (saves_only o' ≡ true)
unfolding parse set_option
parse_after [] o h s = (o, refl, s)
parse_after (affinity n ∷ fs) o (h, hs) s = parse_after fs (record o { affinity = n }) hs s
parse_after (cycle n ∷ fs) o (h, hs) s = parse_after fs (record o { cycle = n }) hs s
parse_after (zfile path ∷ fs) o (h, hs) s = parse_after fs (record o { zfile = path }) hs s
parse_after (no_save ∷ fs) o (h, hs) s = absurd h
parse_after (test ∷ fs) o (h, hs) s =
    parse_after fs
      (record o { istest = true; zfile = codes "/link/ops/data_hl2m/test_ztarget.dat" }) hs s
parse_after (acquire ∷ fs) o (h, hs) s =
    parse_after fs (record o { acqonly = true; saveall = true }) hs refl
parse_after (usage ∷ fs) o (h, hs) s = absurd h

abbrev pub IsKnown : Flag → Type 0
IsKnown (affinity n) = Unit
IsKnown (cycle n) = Unit
IsKnown (zfile path) = Unit
IsKnown no_save = Unit
IsKnown test = Unit
IsKnown acquire = Unit
IsKnown usage = ⊥

-- With `-q` on the command line, known options before it and neither `-n` nor an unknown option
-- behind it, the program only acquires, and saves what it acquires, whatever the options before it
-- were.
pub parse-acquire :
    (before after : List Flag) (o : Options)
    → All IsKnown before
    → All KeepsSaving after
    → (o' : Options) × (parse (before ++ acquire ∷ after) o ≡ ok o')
      × (o'.acqonly ≡ true)
      × (o'.saveall ≡ true)
unfolding parse set_option
parse-acquire [] after o known keeps =
    let (o', e, s) = parse_after after (record o { acqonly = true; saveall = true }) keeps refl in
    (o', e, ground arith, ground arith)
parse-acquire (affinity n ∷ fs) after o (k, ks) keeps =
    parse-acquire fs after (record o { affinity = n }) ks keeps
parse-acquire (cycle n ∷ fs) after o (k, ks) keeps =
    parse-acquire fs after (record o { cycle = n }) ks keeps
parse-acquire (zfile path ∷ fs) after o (k, ks) keeps =
    parse-acquire fs after (record o { zfile = path }) ks keeps
parse-acquire (no_save ∷ fs) after o (k, ks) keeps =
    parse-acquire fs after (record o { saveall = false }) ks keeps
parse-acquire (test ∷ fs) after o (k, ks) keeps =
    parse-acquire fs after
      (record o { istest = true; zfile = codes "/link/ops/data_hl2m/test_ztarget.dat" }) ks keeps
parse-acquire (acquire ∷ fs) after o (k, ks) keeps =
    parse-acquire fs after (record o { acqonly = true; saveall = true }) ks keeps
parse-acquire (usage ∷ fs) after o (k, ks) keeps = absurd k
