-- ===== src/Rfm/Helper.antt =====
-- rfm_helper.h: the reflective memory of the main program, and the write of `process` in daux.c.
use daux4pcs2m.Base.{ℕ, ◌-◌, ◌/◌, ◌%◌, ◌^◌, List, [], ◌∷◌, if◌then◌else◌}
use daux4pcs2m.Base.Int.{ℤ, pos, negsuc}
use daux4pcs2m.Rfm.{Rfm2g, success}

abbrev pub offset_daq : ℕ
offset_daq = 0x100

-- The bytes of shorts, in two's complement with the low one first.
abbrev unsigned_short : ℤ → ℕ
unsigned_short (pos n) = n % 2 ^ 16
unsigned_short (negsuc n) = 2 ^ 16 - 1 - n % 2 ^ 16

unfoldable pub bytes_of_shorts : List ℤ → List ℕ
bytes_of_shorts [] = []
bytes_of_shorts (x ∷ xs) = unsigned_short x % 256 ∷ unsigned_short x / 256 ∷ bytes_of_shorts xs

module _ (api : Rfm2g) where
  -- `result`, and the board behind `Handle`.
  pub record Link : Type 0 where
    pub result : ℕ
    pub board : api.Board

  unfoldable pub rfm_init : Link → ℤ × Link
  rfm_init s =
      let (opened, b1) = api.open_board s.board in
      let (set, b2) = api.set_dma_threshold 16 b1 in
      if success opened
      then (if success set
          then (pos 0, record { result = set; board = b2 })
          else (negsuc 0, record { result = set; board = (api.close b2).1 }))
      else (negsuc 0, record { result = opened; board = b1 })

  unfoldable pub rfm_end : Link → ℤ × Link
  rfm_end s = let (status, b) = api.close s.board in (pos status, record s { board = b })

  -- `result = RFM2gWrite(Handle, OFFSET_DAQ, data, CHNS * sizeof(short))`, for the bytes of the data.
  unfoldable pub transmit : List ℕ → Link → Link
  transmit bytes s =
      let (status, b) = api.write offset_daq bytes s.board in record { result = status; board = b }
