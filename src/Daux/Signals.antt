-- ===== src/Daux/Signals.antt =====
-- The signals that daux.c archives of the acquisition: their names, and `save_signal`.
use daux4pcs2m.Base.{ℕ, zero, suc, ◌+◌, List, [], ◌∷◌, ◌≡◌, refl, length}
pub mod Saved
pub mod Rows
use Prim.Native.String.{String}
use daux4pcs2m.Base.Text.{Text, codes}
use daux4pcs2m.Real.{Ieee, Float}
use daux4pcs2m.Memory.Result.{Result, ok, err, ◌>>=◌}
use daux4pcs2m.Memory.Buffer.{Buffer}
use daux4pcs2m.Mds.{MdsLib, write_signal}

abbrev texts : List String → List Text
texts [] = []
texts (n ∷ ns) = codes n ∷ texts ns

abbrev pub signal_list : List Text
signal_list = texts (
    "PCIPF1U" ∷ "PCIPF2U" ∷ "PCIPF3U" ∷ "PCIPF4U" ∷ "PCIPF5U" ∷ "PCIPF6U" ∷ "PCIPF7U" ∷ "PCIPF8U"
    ∷ "PCIPF1L" ∷ "PCIPF2L" ∷ "PCIPF3L" ∷ "PCIPF4L" ∷ "PCIPF5L" ∷ "PCIPF6L" ∷ "PCIPF7L" ∷ "PCIPF8L"
    ∷ "PCIVS1" ∷ "PCIVS2" ∷ "PCICSA" ∷ "PCICSB" ∷ "PCITFA" ∷ "PCITFB" ∷ "PCRL01" ∷ "PCRL02"
    ∷ "PCFL1" ∷ "PCFL2" ∷ "PCFL3" ∷ "PCFL4" ∷ "PCFL5" ∷ "PCFL6" ∷ "PCFL7" ∷ "PCFL8" ∷ "PCFL9"
    ∷ "PCFL10" ∷ "PCFL11" ∷ "PCFL12" ∷ "PCFL13" ∷ "PCFL14" ∷ "PCFL15" ∷ "PCFL16" ∷ "PCFL17"
    ∷ "PCFL18" ∷ "PCFL19" ∷ "PCFL20" ∷ "PCFL21" ∷ "PCFL22" ∷ "PCFL23" ∷ "PCFL24" ∷ "PCFL25"
    ∷ "PCFL26" ∷ "PCFL27" ∷ "PCFL28" ∷ "PCFL29" ∷ "PCFL30" ∷ "PCMP01T" ∷ "PCMP02T" ∷ "PCMP03T"
    ∷ "PCMP04T" ∷ "PCMP05T" ∷ "PCMP06T" ∷ "PCMP07T" ∷ "PCMP08T" ∷ "PCMP09T" ∷ "PCMP10T" ∷ "PCMP11T"
    ∷ "PCMP12T" ∷ "PCMP13T" ∷ "PCMP14T" ∷ "PCMP15T" ∷ "PCMP16T" ∷ "PCMP17T" ∷ "PCMP18T" ∷ "PCMP19T"
    ∷ "PCMP20T" ∷ "PCMP01N" ∷ "PCMP02N" ∷ "PCMP03N" ∷ "PCMP04N" ∷ "PCMP05N" ∷ "PCMP06N" ∷ "PCMP07N"
    ∷ "PCMP08N" ∷ "PCMP09N" ∷ "PCMP10N" ∷ "PCMP11N" ∷ "PCMP12N" ∷ "PCMP13N" ∷ "PCMP14N" ∷ "PCMP15N"
    ∷ "PCMP16N" ∷ "PCMP17N" ∷ "PCMP18N" ∷ "PCMP19N" ∷ "PCMP20N" ∷ "PCNE1" ∷ "PCNE2" ∷ [])

module _ ⦃m : Ieee⦄ (lib : MdsLib) where
  -- The loop over the channels, for the names left; `start` is where the pointer of the channel leads.
  unfoldable pub save_channels_of :
      List Text → Buffer Float → Buffer Float → ℕ → ℕ → lib.Session → Result lib.Session
  save_channels_of [] x y start n s = ok s
  save_channels_of (name ∷ names) x y start n s = do
    s' ← write_signal lib name x y start n s
    save_channels_of names x y (start + n) n s'

  -- `save_signal(shot)`, for `timebase`, the array behind `signal_data`, and `nsamples`.
  unfoldable pub save_signal : Buffer Float → Buffer Float → ℕ → lib.Session → Result lib.Session
  save_signal timebase signal_data nsamples s =
      save_channels_of signal_list timebase signal_data 0 nsamples s
