-- ===== src/Vs/Digital.antt =====
-- `fastz_do32` of vscontrol.h, which is compiled with DO: the word of the digital output.
use Prim.Native.Nat.{bit_or, bit_or-bitwise, digits, max}
use daux4pcs2m.Base.{ℕ, zero, suc, ◌+◌, ◌*◌, ◌/◌, ◌%◌, ◌^◌, ◌≤◌, ◌<◌, ◌≡◌, arith, ◌∙◌}
use daux4pcs2m.Memory.Result.{Result, ok}
use daux4pcs2m.Memory.Buffer.{Buffer, HasSize, read, write, write_within, read-write}

-- DO_IX of daq_helper.h
abbrev pub do_ix : ℕ
do_ix = 0

-- `data = cmd; data |= status << 16`, with an `unsigned long` of 64 bits and an `unsigned` of 32.
unfoldable pub do32_word : ℕ → ℕ → ℕ
do32_word cmd status = bit_or cmd (status * 2 ^ 16 % 2 ^ 64) % 2 ^ 32

unfoldable pub fastz_do32 : Buffer ℕ → ℕ → ℕ → Result (Buffer ℕ)
fastz_do32 xo cmd status = write xo do_ix (do32_word cmd status)

-- 2 ^ w, and a number with w digits 0 behind it.
abbrev power : ℕ → ℕ
power zero = 1
power (suc w) = power w * 2

abbrev shifted : ℕ → ℕ → ℕ
shifted zero b = b
shifted (suc w) b = shifted w b * 2

max_zero : (x : ℕ) → max x 0 ≡ x
max_zero x = omega arith

-- The digits of a number below a power of two do not meet those of its multiples.
digits_apart :
    (n w a b : ℕ) → a ≤ n → a < power w → digits (λ c. c) max n a (shifted w b) ≡ a + shifted w b
digits_apart zero w zero b few low = omega arith
digits_apart zero w (suc a) b few low = absurd (omega arith)
digits_apart (suc n) w zero b few low = omega arith
digits_apart (suc n) zero (suc a) b few low = absurd (omega arith)
digits_apart (suc n) (suc w) (suc a) b few low =
    let c = shifted w b in
    let half : c * 2 / 2 ≡ c = omega arith in
    let even : c * 2 % 2 ≡ 0 = omega arith in
    let later : digits (λ c. c) max n (suc a / 2) c ≡ suc a / 2 + c =
      digits_apart n w (suc a / 2) b (omega arith) (omega arith) in
    rw half (rw even (rw later (rw (max_zero (suc a % 2)) (omega arith))))

or_apart : (a b : ℕ) → a < 2 ^ 16 → bit_or a (b * 2 ^ 16) ≡ a + b * 2 ^ 16
or_apart a b low =
    let same : b * 2 ^ 16 ≡ shifted 16 b = omega arith in
    rw same
      ((λ i. bit_or-bitwise a (shifted 16 b) i) ∙ digits_apart a 16 a b (omega arith) (omega arith))

-- The word has the command in its low half and the low 16 bits of the status in its high half.
do32_word_lem :
    (cmd status : ℕ) → cmd < 2 ^ 16 → do32_word cmd status ≡ cmd + status % 2 ^ 16 * 2 ^ 16
unfolding do32_word
do32_word_lem cmd status low =
    let cut : status * 2 ^ 16 % 2 ^ 64 ≡ status % 2 ^ 48 * 2 ^ 16 = omega arith in
    rw cut (rw (or_apart cmd (status % 2 ^ 48) low) (omega arith))

-- The digital output gets the command of 16 bits in the low half of its first word and the low 16
-- bits of the status in the high half, whatever the status is, and keeps its size.
pub fastz_do32_lem :
    (xo : Buffer ℕ) (n cmd status : ℕ)
    → HasSize n xo
    → do_ix < n
    → cmd < 2 ^ 16
    → (out : Buffer ℕ) × (w : ℕ) × (fastz_do32 xo cmd status ≡ ok out)
      × (read out do_ix ≡ ok w)
      × (w % 2 ^ 16 ≡ cmd)
      × (w / 2 ^ 16 ≡ status % 2 ^ 16)
      × HasSize n out
unfolding fastz_do32
fastz_do32_lem xo n cmd status size room low =
    let w = do32_word cmd status in
    let word = do32_word_lem cmd status low in
    let (out, e, kept, _) = write_within xo n do_ix w size room in
    (out, w, e, read-write xo do_ix w e, rw word (omega arith), rw word (omega arith), kept)
