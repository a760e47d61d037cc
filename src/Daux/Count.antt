-- ===== src/Daux/Count.antt =====
-- How many cycles a shot has: the ints of `main` in daux.c.
use daux4pcs2m.Base.{
  ℕ, zero, suc, ◌+◌, ◌*◌, ◌/◌, ◌^◌, ◌≤◌, ◌<◌, ltb, if◌then◌else◌, ◌≡◌, refl, arith, lt→ltb,
}
use native.Mathlib.Nat.{div-le_self, div-mul-le_self, mul-le-mul_left, mul-le-mul_right, mul_assoc}
use daux4pcs2m.Base.Int.{ℤ, pos, negsuc, ◌+ℤ◌, ◌*ℤ◌, sub_ℕ}
use daux4pcs2m.Memory.Result.{Result, ok, err, overflow, division_by_zero, ◌>>=◌}

-- The division of ints, which truncates towards zero.
unfoldable pub quotient : ℤ → ℤ → Result ℤ
quotient a (pos zero) = err division_by_zero
quotient (pos n) (pos (suc d)) = ok (pos (n / suc d))
quotient (negsuc n) (pos (suc d)) = ok (sub_ℕ 0 (suc n / suc d))
quotient (pos n) (negsuc d) = ok (sub_ℕ 0 (n / suc d))
quotient (negsuc n) (negsuc d) = ok (pos (suc n / suc d))

unfoldable pub in_int : ℤ → Result ℤ
in_int (pos n) = if ltb n (2 ^ 31) then ok (pos n) else err overflow
in_int (negsuc n) = if ltb n (2 ^ 31) then ok (negsuc n) else err overflow

-- EXT_CLK
abbrev pub ext_clk : ℤ
ext_clk = pos 1000000

-- `EXT_CLK / CLK_DIV`
abbrev pub rate : ℤ → Result ℤ
rate clk_div = quotient ext_clk clk_div

-- `(5 + 9 + total_time / 1000000) * (EXT_CLK / CLK_DIV)`
unfoldable pub sample_count : ℤ → ℤ → Result ℤ
sample_count total_time clk_div = do
  seconds ← quotient total_time (pos 1000000)
  r ← rate clk_div
  in_int ((pos 14 +ℤ seconds) *ℤ r)

add_pos : (a b : ℕ) → pos a +ℤ pos b ≡ pos (a + b)
add_pos a b = ground arith

pub mul_pos : (a b : ℕ) → pos a *ℤ pos b ≡ pos (a * b)
mul_pos a b = ground arith

-- A shot of less than 2134 seconds has a count that fits an int, for each cycle of 1 microsecond to
-- 1 second, and the cycles last no longer than the shot with the 14 seconds around it.
pub sample_count_fits :
    (total d : ℕ)
    → 0 < d
    → d ≤ 1000000
    → total < 2134000000
    → (n : ℕ) × (sample_count (pos total) (pos d) ≡ ok (pos n))
      × (n < 2 ^ 31)
      × (n * d ≤ 14000000 + total)
unfolding sample_count quotient in_int
sample_count_fits total zero some_time slow short = absurd (omega arith)
sample_count_fits total (suc d) some_time slow short =
    let seconds = total / 1000000 in
    let r = 1000000 / suc d in
    let n = (14 + seconds) * r in
    let few : 14 + seconds ≤ 2147 = omega arith in
    let fast : r ≤ 1000000 = omega (arith, div-le_self 1000000 (suc d)) in
    let bound : n < 2 ^ 31 = omega (arith, mul-le-mul_right r few, mul-le-mul_left 2147 fast) in
    let whole : r * suc d ≤ 1000000 = div-mul-le_self 1000000 (suc d) in
    let lasts : n * suc d ≤ 14000000 + total =
      omega (arith, mul-le-mul_left (14 + seconds) whole, mul_assoc (14 + seconds) r (suc d)) in
    (
      n,
      rw (add_pos 14 seconds) (rw (mul_pos (14 + seconds) r) (rw (lt→ltb n (2 ^ 31) bound) refl)),
      bound,
      lasts,
    )
