-- ===== src/Daq/Cards.antt =====
-- `acq2106_get_data_pointer` of daq_helper.h: the samples of one board.
use daux4pcs2m.Base.{
  ltb, Bool-cases, inl, inr, ℕ, ◌+◌, ◌*◌, ◌/◌, ◌%◌, ◌≤◌, List, ◌==◌, if◌then◌else◌, ◌≡◌, refl,
  arith, length, get_elem?, ◌∙◌,
}
use daux4pcs2m.Memory.Result.{Result, ok, ◌>>=◌}
use daux4pcs2m.Memory.Buffer.{Buffer, live, contents, read_list, write}
use daux4pcs2m.Memory.Copy.{
  first, paste, skip, first_within, get_elem?-first, paste_elements, get_elem?-skip, length-skip,
}
use daux4pcs2m.Daq.{Acq}

-- The last byte of an odd count: the low half of a short.
unfoldable pub copy_half : ℕ → List ℕ → List ℕ → Result (Buffer ℕ)
copy_half i src dst = do
  x ← read_list src i
  y ← read_list dst i
  write (live dst) i (x % 256 + y / 256 * 256)

-- `memcpy` of a count of bytes between arrays of shorts.
unfoldable pub copy_bytes : ℕ → List ℕ → List ℕ → Result (Buffer ℕ)
copy_bytes n src dst = do
  part ← first (n / 2) src
  new ← paste part dst
  if n % 2 == 0 then ok (live new) else copy_half (n / 2) src new

-- `memcpy(card_buffer, ai_buffer + crd_index * channels, channels)`: the count is in bytes.
unfoldable pub acq2106_get_data_pointer : ℕ → Acq → Result Acq
acq2106_get_data_pointer crd_index a = do
  ai ← contents a.ai_buffer
  card ← contents a.card_buffer
  card' ← copy_bytes a.channels (skip (crd_index * a.channels) ai) card
  ok (record a { card_buffer = card' })

-- For an even count of channels only the first half of the samples of a board arrives: with the
-- samples of the board in the sample buffer and room for them in the buffer of the board, that half
-- is copied, and the other half of the board's buffer is as before.
pub acq2106_get_data_pointer_half :
    (crd_index half : ℕ) (a : Acq) (ai card : List ℕ)
    → a.channels ≡ half * 2
    → a.ai_buffer ≡ live ai
    → a.card_buffer ≡ live card
    → crd_index * a.channels + a.channels ≤ length ai
    → length card ≡ a.channels
    → (card' : List ℕ) × (acq2106_get_data_pointer crd_index a
        ≡ ok (record a { card_buffer = live card' }))
      × ((i : ℕ)
          → get_elem? card' i
            ≡ (if ltb i half then get_elem? ai (crd_index * a.channels + i) else get_elem? card i))
unfolding acq2106_get_data_pointer copy_bytes
acq2106_get_data_pointer_half crd_index half a ai card even ea ec room size =
    let start = crd_index * a.channels in
    let left = length-skip start ai (omega arith) in
    let (part, e, count) = first_within (skip start ai) half (omega arith) in
    let (new, p, fresh, old) = paste_elements part card (omega arith) in
    let halved : a.channels / 2 ≡ half = omega arith in
    let whole : a.channels % 2 ≡ 0 = omega arith in
    (
      new,
      rw ea (rw ec (rw halved (rw e (rw p (rw whole refl))))),
      λ i. elim (Bool-cases (ltb i half)) [
        | inl below ↦ rw below (
            fresh i (ground arith)
            ∙ get_elem?-first (skip start ai) half i e (ground arith)
            ∙ get_elem?-skip start ai i)
        | inr above ↦ rw above (old i (ground arith))
      ],
    )
