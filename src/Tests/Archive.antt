-- ===== src/Tests/Archive.antt =====
-- The times and the archive of a shot on concrete input.
use daux4pcs2m.Base.{ℕ, ◌%◌, ◌/◌, ◌^◌, suc, [], ◌∷◌, ◌≡◌, refl, true, false, arith}
use daux4pcs2m.Base.Int.{ℤ, pos, ltb_ℤ, ◌*ℤ◌}
use daux4pcs2m.Real.Rational.{rational, Rational, frac, nan}
use daux4pcs2m.Memory.Result.{ok}
use daux4pcs2m.Memory.Buffer.{Buffer, HasSize, read, live}
use daux4pcs2m.Vs.Digital.{fastz_do32, fastz_do32_lem}
use daux4pcs2m.Vs.State.{Vs, vs_init, trace_init, config_init, Config, AlgMask}
use daux4pcs2m.Vs.Init.{set_window}
use daux4pcs2m.Vs.Init.Window.{IsStrict, Covers, set_window-Covers}
use daux4pcs2m.Vs.Archive.{block_bit, voltage_bit, current_bit}
use daux4pcs2m.Vs.Archive.Bits.{archived_bits, IsRecorded}

abbrev num : ℕ → Rational
num n = frac (pos n) 0

ltb_ℤ_irreflexive : (a : ℤ) → ltb_ℤ a a ≡ false
ltb_ℤ_irreflexive a = ground arith

ltb_ℤ_asymmetric : (a b : ℤ) → ltb_ℤ a b ≡ true → ltb_ℤ b a ≡ false
ltb_ℤ_asymmetric a b h = ground arith

strict_irreflexive : (x : Rational) → rational.single.lt x x ≡ false
strict_irreflexive nan = refl
strict_irreflexive (frac a b) = ltb_ℤ_irreflexive (a *ℤ pos (suc b))

strict_asymmetric :
    (x y : Rational) → rational.single.lt x y ≡ true → rational.single.lt y x ≡ false
strict_asymmetric nan nan h = refl
strict_asymmetric nan (frac c d) h = refl
strict_asymmetric (frac a b) nan h = refl
strict_asymmetric (frac a b) (frac c d) h = ltb_ℤ_asymmetric (a *ℤ pos (suc d)) (c *ℤ pos (suc b)) h

rational-IsStrict : IsStrict rational
rational-IsStrict = record { irreflexive = strict_irreflexive; asymmetric = strict_asymmetric }

abbrev both : AlgMask
both = record { cc = true; lm = true; ip = false; fd = false; sm = false }

abbrev two_phases : Config
two_phases = record config_init { cc_st = num 1; cc_et = num 5; limit_st = num 2; limit_et = num 8 }

abbrev window : Config
unfolding set_window
window = set_window both two_phases

set_window-Covers_example : Covers window (num 1) (num 5) × Covers window (num 2) (num 8) × Unit {0}
unfolding window set_window
set_window-Covers_example = set_window-Covers both two_phases rational-IsStrict

archived_bits_example : (block_bit 12 ≡ 13) × (voltage_bit 12 ≡ 7) × (current_bit 12 ≡ 3)
archived_bits_example = archived_bits 12 (omega arith)

abbrev shot : ℕ → Vs Unit
shot cycles = record (vs_init tt) {
  vs_cycle = cycles;
  vs_samples = pos 2;
  trace = record trace_init {
    timebase = live (num 0 ∷ num 1 ∷ []);
    error = live (num 0 ∷ num 1 ∷ []);
    pvector = live (num 0 ∷ num 1 ∷ []);
    precmd = live (num 0 ∷ num 1 ∷ []);
    fincmd = live (3 ∷ 4 ∷ []);
    fincmd_bit = live (1 ∷ 2 ∷ []);
  };
}

shot-IsRecorded : (cycles : ℕ) → IsRecorded 2 (shot cycles)
shot-IsRecorded cycles = record {
  samples = refl;
  timebase = refl;
  error = refl;
  pvector = refl;
  precmd = refl;
  fincmd = refl;
  fincmd_bit = refl;
}

-- A status of more than 16 bits.
fastz_do32_lem_example :
    (out : Buffer ℕ) × (w : ℕ) × (fastz_do32 (live (9 ∷ 8 ∷ [])) 513 70000 ≡ ok out)
    × (read out 0 ≡ ok w)
    × (w % 2 ^ 16 ≡ 513)
    × (w / 2 ^ 16 ≡ 4464)
    × HasSize 2 out
fastz_do32_lem_example =
    fastz_do32_lem (live (9 ∷ 8 ∷ [])) 2 513 70000 refl (omega arith) (omega arith)
