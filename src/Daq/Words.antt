-- ===== src/Daq/Words.antt =====
-- 32-bit words in arrays of 16-bit ones, the low half first, and the functions of daq_helper.h that
-- read and write them.
use daux4pcs2m.Base.{
  ℕ, zero, suc, ◌+◌, ◌*◌, ◌/◌, ◌%◌, ◌^◌, ◌≤◌, ◌<◌, ◌≡◌, refl, arith, ◌≢◌, ◌∙◌, Bool-cases, inl, inr,
  ltb, ◌==◌,
}
use daux4pcs2m.Base.Int.{ℤ, pos, pos_part}
use daux4pcs2m.Memory.Result.{Result, ok, ◌>>=◌}
use daux4pcs2m.Memory.Buffer.{Buffer, HasSize, read, write, write_within, read-write_ne}
use daux4pcs2m.Daq.{Acq}

-- `((unsigned *) b)[i]`, where the array begins at the element `start`.
unfoldable pub read_word : Buffer ℕ → ℕ → ℕ → Result ℕ
read_word b start i = do
  low ← read b (start + i * 2)
  high ← read b (start + i * 2 + 1)
  ok (low + high * 2 ^ 16)

unfoldable pub write_word : Buffer ℕ → ℕ → ℕ → ℕ → Result (Buffer ℕ)
write_word b start i w = do
  b' ← write b (start + i * 2) (w % 2 ^ 16)
  write b' (start + i * 2 + 1) (w / 2 ^ 16 % 2 ^ 16)

-- `AO_OFFSET`, as a count of shorts
abbrev pub ao_start : ℕ
ao_start = 0x80000 / 2

-- The loop of `acq2106_dadig_output`, with the rounds left.
unfoldable pub clear_words : ℕ → ℕ → Buffer ℕ → Result (Buffer ℕ)
clear_words zero i b = ok b
clear_words (suc left) i b = do b' ← write_word b ao_start i 0; clear_words left (i + 1) b'

unfoldable pub acq2106_dadig_output : Acq → Result (ℤ × Acq)
acq2106_dadig_output a = do
  host ← clear_words a.ncards 0 a.host_buffer
  ok (pos 0, record a { host_buffer = host })

-- The argument is not used.
unfoldable pub acq2106_dig_input : ℕ → Acq → Result ℕ
acq2106_dig_input crd_index a = read_word a.host_buffer ao_start 1

-- `TLATCH(ai_buffer)[0]`: the word behind the `nchan` channels.
unfoldable pub acq2106_get_tlatch : ℕ → Acq → Result ℕ
acq2106_get_tlatch crd_index a = read_word a.ai_buffer 0 (pos_part a.settings.nchan * 2 / 4)

abbrev pub acq2106_poll_check : Acq → ℕ
acq2106_poll_check a = a.ncards

-- A word that was written can be read back.
pub read_word-write_word :
    (b : Buffer ℕ) (size start i w : ℕ)
    → HasSize size b
    → start + i * 2 + 1 < size
    → w < 2 ^ 32
    → (c : Buffer ℕ) × (write_word b start i w ≡ ok c)
      × HasSize size c
      × (read_word c start i ≡ ok w)
unfolding read_word write_word
read_word-write_word b size start i w h room small =
    let (b1, e1, h1, r1) = write_within b size (start + i * 2) (w % 2 ^ 16) h (omega arith) in
    let (b2, e2, h2, r2) = write_within b1 size (start + i * 2 + 1) (w / 2 ^ 16 % 2 ^ 16) h1 room in
    let apart : start + i * 2 + 1 ≢ start + i * 2 = omega arith in
    let kept =
      read-write_ne b1 (start + i * 2 + 1) (start + i * 2) (w / 2 ^ 16 % 2 ^ 16) e2 apart in
    let whole : w % 2 ^ 16 + w / 2 ^ 16 % 2 ^ 16 * 2 ^ 16 ≡ w = omega arith in
    (b2, rw e1 e2, h2, rw kept (rw r1 (rw r2 (rw whole))))

-- Both halves of a zero, and what lies below it.
zero_word :
    (b : Buffer ℕ) (size start i : ℕ)
    → HasSize size b
    → start + i * 2 + 1 < size
    → (c : Buffer ℕ) × (write_word b start i 0 ≡ ok c)
      × HasSize size c
      × (read c (start + i * 2) ≡ ok 0)
      × (read c (start + i * 2 + 1) ≡ ok 0)
      × ((j : ℕ) → j < start + i * 2 → read c j ≡ read b j)
unfolding write_word
zero_word b size start i h room =
    let (b1, e1, h1, r1) = write_within b size (start + i * 2) 0 h (omega arith) in
    let (b2, e2, h2, r2) = write_within b1 size (start + i * 2 + 1) 0 h1 room in
    let apart : start + i * 2 + 1 ≢ start + i * 2 = omega arith in
    (
      b2,
      rw e1 e2,
      h2,
      read-write_ne b1 (start + i * 2 + 1) (start + i * 2) 0 e2 apart ∙ r1,
      r2,
      λ j below.
          read-write_ne b1 (start + i * 2 + 1) j 0 e2 (omega arith)
          ∙ read-write_ne b (start + i * 2) j 0 e1 (omega arith),
    )

clear_words_within :
    (left i size : ℕ) (b : Buffer ℕ)
    → HasSize size b
    → ao_start + (i + left) * 2 ≤ size
    → (c : Buffer ℕ) × (clear_words left i b ≡ ok c)
      × HasSize size c
      × ((j : ℕ) → j < ao_start + i * 2 → read c j ≡ read b j)
      × ((j : ℕ) → ao_start + i * 2 ≤ j → j < ao_start + (i + left) * 2 → read c j ≡ ok 0)
unfolding clear_words
clear_words_within zero i size b h room =
    (b, refl, h, λ j below. refl, λ j low high. absurd (omega arith))
clear_words_within (suc left) i size b h room =
    let (b1, e1, h1, low, high, kept) = zero_word b size ao_start i h (omega arith) in
    let (c, e, hc, keeps, zeros) = clear_words_within left (i + 1) size b1 h1 (omega arith) in
    (
      c,
      rw e1 e,
      hc,
      λ j below. keeps j (omega arith) ∙ kept j below,
      λ j from to. elim (Bool-cases (ltb j (ao_start + (i + 1) * 2))) [
        | inl this ↦ elim (Bool-cases (j == ao_start + i * 2)) [
          | inl first ↦
              let at : j ≡ ao_start + i * 2 = ground arith in keeps j (ground arith) ∙ rw at low
          | inr second ↦
              let at : j ≡ ao_start + i * 2 + 1 = ground arith in
              keeps j (ground arith) ∙ rw at high
        ]
        | inr later ↦ zeros j (ground arith) (omega arith)
      ],
    )

-- `acq2106_dadig_output` clears the digital outputs and nothing else, where the mapped memory has
-- room for a word for each card behind the offset of the outputs: no access is out of bounds, the
-- shorts in front of the offset, where the samples of the device arrive, are as before, and with two
-- cards or more the word that `acq2106_dig_input` returns, for any card, is then 0.
pub acq2106_dadig_output_lem :
    (size crd_index : ℕ) (a : Acq)
    → HasSize size a.host_buffer
    → ao_start + a.ncards * 2 ≤ size
    → 2 ≤ a.ncards
    → (a' : Acq) × (acq2106_dadig_output a ≡ ok (pos 0, a'))
      × ((j : ℕ) → j < ao_start → read a'.host_buffer j ≡ read a.host_buffer j)
      × (acq2106_dig_input crd_index a' ≡ ok 0)
unfolding acq2106_dadig_output acq2106_dig_input read_word
acq2106_dadig_output_lem size crd_index a h room two =
    let (c, e, hc, keeps, zeros) =
      clear_words_within a.ncards 0 size a.host_buffer h (omega arith) in
    let low = zeros (ao_start + 1 * 2) (omega arith) (omega arith) in
    let high = zeros (ao_start + 1 * 2 + 1) (omega arith) (omega arith) in
    (
      record a { host_buffer = c },
      rw e refl,
      λ j below. keeps j (omega arith),
      rw low (rw high refl),
    )
