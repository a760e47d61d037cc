-- ===== src/Daq/Parameters.antt =====
-- The parameter file in `acq2106_init` of daq_helper.h. What `fscanf` delivers for a line is a
-- name and a number.
use daux4pcs2m.Base.{
  ℕ, ◌+◌, ◌≤◌, ◌<◌, Bool, true, false, List, [], ◌∷◌, Option, none, some, ltb, if◌then◌else◌, ◌≡◌,
  refl, arith, length, All, ◌&&◌, lt→ltb, ◌∙◌,
}
use daux4pcs2m.Base.Int.{ℤ}
use daux4pcs2m.Base.Text.{Text, codes, same_text}
use daux4pcs2m.Memory.Result.{Result, ok, err, out_of_bounds}
use daux4pcs2m.Daq.{Settings}

-- The variables, for the names of the chain of `strcmp`.
pub data Field : Type 0 where
  devnum aochan has_do32 dup1 nchan : Field

-- The chain.
unfoldable pub field_of : Text → Option Field
field_of name =
    if same_text name (codes "DEVNUM")
    then some devnum
    else if same_text name (codes "AOCHAN")
    then some aochan
    else if same_text name (codes "DO32")
    then some has_do32
    else if same_text name (codes "DUP1")
    then some dup1
    else if same_text name (codes "AICHAN")
    then some nchan
    else none

abbrev assign : Option Field → ℤ → Settings → Settings
assign none v s = s
assign (some devnum) v s = record s { devnum = v }
assign (some aochan) v s = record s { aochan = v }
assign (some has_do32) v s = record s { has_do32 = v }
assign (some dup1) v s = record s { dup1 = v }
assign (some nchan) v s = record s { nchan = v }

-- `params` has room for 10 entries, with names of 15 bytes and their end.
abbrev pub max_params : ℕ
max_params = 10

abbrev pub para_bytes : ℕ
para_bytes = 16

-- The loop over the entries, with `i`.
unfoldable pub read_parameters : ℕ → List (Text × ℤ) → Settings → Result Settings
read_parameters i [] s = ok s
read_parameters i ((name, v) ∷ rest) s =
    let later = read_parameters (i + 1) rest (assign (field_of name) v s) in
    if ltb i max_params && ltb (length name) para_bytes then later else err out_of_bounds

abbrev pub get : Field → Settings → ℤ
get devnum s = s.devnum
get aochan s = s.aochan
get has_do32 s = s.has_do32
get dup1 s = s.dup1
get nchan s = s.nchan

abbrev same_field : Option Field → Field → Bool
same_field (some devnum) devnum = true
same_field (some aochan) aochan = true
same_field (some has_do32) has_do32 = true
same_field (some dup1) dup1 = true
same_field (some nchan) nchan = true
same_field _ _ = false

-- The number of the last entry for a variable.
abbrev pub last_entry : Field → List (Text × ℤ) → Option ℤ
last_entry f [] = none
last_entry f ((name, v) ∷ rest) = elim (last_entry f rest) [
  | some w ↦ some w
  | none ↦ if same_field (field_of name) f then some v else none
]

abbrev pub or_old : Option ℤ → ℤ → ℤ
or_old none old = old
or_old (some v) old = v

get-assign :
    (f : Field) (o : Option Field) (v : ℤ) (s : Settings)
    → get f (assign o v s) ≡ (if same_field o f then v else get f s)
get-assign f o v s = ground arith

abbrev pub AreShort : List (Text × ℤ) → Type 0
AreShort = All λ e. length e.0 < para_bytes

pub read_parameters_from :
    (i : ℕ) (es : List (Text × ℤ)) (s : Settings)
    → i + length es ≤ max_params
    → AreShort es
    → (t : Settings) × (read_parameters i es s ≡ ok t)
      × ((f : Field) → get f t ≡ or_old (last_entry f es) (get f s))
unfolding read_parameters
read_parameters_from i [] s room short = (s, refl, λ f. refl)
read_parameters_from i ((name, v) ∷ es) s room (here, later) =
    let (t, e, each) =
      read_parameters_from (i + 1) es (assign (field_of name) v s) (omega arith) later in
    (
      t,
      rw (lt→ltb i max_params (omega arith)) (rw (lt→ltb (length name) para_bytes here) e),
      λ f. step t f (each f),
    )
  where
    step :
        (t : Settings) (f : Field)
        → get f t ≡ or_old (last_entry f es) (get f (assign (field_of name) v s))
        → get f t ≡ or_old (last_entry f ((name, v) ∷ es)) (get f s)
    step t f e =
        split f (last_entry f es) (same_field (field_of name) f) e
          (get-assign f (field_of name) v s)
      where
        split :
            {w : ℤ} {x : ℤ} (f : Field) (o : Option ℤ) (b : Bool)
            → w ≡ or_old o x
            → x ≡ (if b then v else get f s)
            → w ≡ or_old (elim o [ some u ↦ some u | none ↦ if b then some v else none ]) (get f s)
        split f (some u) b p q = p
        split f none true p q = p ∙ q
        split f none false p q = p ∙ q
