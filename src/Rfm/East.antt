-- ===== src/Rfm/East.antt =====
-- The packets of east_rfmrt.h: numbers go to the reflective memory and come back through a buffer
-- for DMA that is mapped once. The memory of an array is its bytes.
pub mod Packets
pub mod Life
use daux4pcs2m.Base.{
  ℕ, zero, suc, ◌+◌, ◌*◌, Bool, true, false, List, [], ◌∷◌, replicate, ◌==◌, if◌then◌else◌,
}
use daux4pcs2m.Base.Int.{ℤ, pos, negsuc}
use daux4pcs2m.Memory.Result.{Result, ok, err, ◌>>=◌}
use daux4pcs2m.Memory.Buffer.{Buffer, freed, live, contents}
use daux4pcs2m.Memory.Copy.{first, paste, memcpy, memset}
use daux4pcs2m.Rfm.{Rfm2g, success}

abbrev pub map_bytes : ℕ
map_bytes = 0x100000

-- `0x140000000 | RFM2G_DMA_MMAP_OFFSET` is a parameter of the model, since the macro is the
-- library's.
abbrev pub rfm_scopedata : ℕ
rfm_scopedata = 300

abbrev pub rfm_commands : ℕ
rfm_commands = 90

abbrev pub offset_1 : ℕ
offset_1 = 0x1000

abbrev pub offset_2 : ℕ
offset_2 = 0x2000

abbrev minus_one : ℤ
minus_one = negsuc 0

abbrev minus_three : ℤ
minus_three = negsuc 2

-- `sizeof` of the three kinds of numbers
abbrev pub float_bytes : ℕ
float_bytes = 4

abbrev pub int_bytes : ℕ
int_bytes = 4

abbrev pub short_bytes : ℕ
short_bytes = 2

module _ (api : Rfm2g) where
  -- `rfmhndl`, `rfm_init_status` and `pDmaMemory`.
  pub record East : Type 0 where
    pub board : api.Board
    pub init_status : ℕ
    pub dma : Buffer ℕ

  -- `RFM2gClose(&rfmhndl); return -1;`, on the board that the failed call leaves.
  abbrev pub give_up : ℤ → api.Board → East → ℤ × East
  give_up code b s = (code, record s { board = (api.close b).1 })

  unfoldable pub east_rfm_open : ℕ → East → ℤ × East
  east_rfm_open window s =
      let (opened, b1) = api.open_board s.board in
      let (mapped, bytes, b2) = api.user_memory window map_bytes b1 in
      let s2 : East = record s { board = b2; dma = live bytes } in
      let (set, b3) = api.set_dma_threshold 16 b2 in
      if success opened
      then (if success mapped
          then (if success set
              then (pos set, record s2 { board = b3; init_status = 1 })
              else give_up minus_one b3 s2)
          else give_up minus_three b2 s)
      else (minus_one, record s { board = b1 })

  -- The write of the first `n` bytes of the DMA buffer, with its status.
  unfoldable pub send : ℕ → ℕ → East → Result (ℕ × East)
  send offset n s = do
    bytes ← contents s.dma
    part ← first n bytes
    let (status, b) = api.write offset part s.board
    ok (status, record s { board = b })

  -- The end of a call that returns 0 for success.
  abbrev pub outcome : ℕ × East → ℤ × East
  outcome (status, s) = if success status then (pos 0, s) else give_up minus_one s.board s

  unfoldable pub east_rfm_clear : ℕ → ℕ → East → Result (ℤ × East)
  east_rfm_clear offset n s = do
    let zeros = replicate (n * float_bytes) 0
    dma ← memcpy s.dma (live zeros) (n * float_bytes)
    (status, s') ← send offset (n * float_bytes) (record s { dma = dma })
    ok (if success status then (pos status, s') else give_up minus_one s'.board s')

  -- The calls after both writes. The mapped memory is gone once it is unmapped.
  abbrev leave : East → ℤ × East
  leave s =
      let (status, b) = api.unmap map_bytes s.board in
      let gone : Buffer ℕ = if success status then freed else s.dma in
      (pos status, record s { board = (api.close b).1; dma = gone })

  -- The second write.
  unfoldable pub clear_scope : East → Result (ℤ × East)
  clear_scope s = do
    (status, s') ← send offset_2 (rfm_scopedata * float_bytes) s
    ok (if success status then leave s' else give_up minus_one s'.board s')

  unfoldable pub shut_down : East → Result (ℤ × East)
  shut_down s = do
    let size = rfm_scopedata * float_bytes
    dma ← memcpy s.dma (live (replicate size 0)) size
    (status, s') ← send offset_1 (rfm_commands * float_bytes) (record s { dma = dma })
    if success status then clear_scope s' else ok (give_up minus_one s'.board s')

  unfoldable pub east_rfm_close : East → Result (ℤ × East)
  east_rfm_close s =
      let closing = shut_down (record s { init_status = 0 }) in
      if s.init_status == 0 then ok (pos 0, s) else closing

  abbrev pub get_rfm_status : East → ℕ
  get_rfm_status s = s.init_status

  -- What the three writes share, for a number of bytes.
  unfoldable pub write_packet : ℕ → Buffer ℕ → ℕ → East → Result (ℤ × East)
  write_packet offset array n s = do
    dma ← memcpy s.dma array n
    r ← send offset n (record s { dma = dma })
    ok (outcome r)

  unfoldable pub east_rfm_write_float : ℕ → Buffer ℕ → ℕ → East → Result (ℤ × East)
  east_rfm_write_float offset array count s = write_packet offset array (count * float_bytes) s

  unfoldable pub east_rfm_write_int : ℕ → Buffer ℕ → ℕ → East → Result (ℤ × East)
  east_rfm_write_int offset array count s = write_packet offset array (count * int_bytes) s

  unfoldable pub east_rfm_write_short : ℕ → Buffer ℕ → ℕ → East → Result (ℤ × East)
  east_rfm_write_short offset array count s = write_packet offset array (count * short_bytes) s

  -- What the three reads share. The data is copied whether or not the read succeeds.
  unfoldable pub read_packet : ℕ → Buffer ℕ → ℕ → East → Result (ℤ × Buffer ℕ × East)
  read_packet offset array n s = do
    dma ← memset s.dma 0 n
    bytes ← contents dma
    let (status, delivered, b) = api.read offset n s.board
    bytes' ← paste delivered bytes
    out ← memcpy array (live bytes') n
    let (code, s') = outcome (status, record s { board = b; dma = live bytes' })
    ok (code, out, s')

  unfoldable pub east_rfm_read_short : ℕ → Buffer ℕ → ℕ → East → Result (ℤ × Buffer ℕ × East)
  east_rfm_read_short offset array count s = read_packet offset array (count * short_bytes) s

  unfoldable pub east_rfm_read_float : ℕ → Buffer ℕ → ℕ → East → Result (ℤ × Buffer ℕ × East)
  east_rfm_read_float offset array count s = read_packet offset array (count * float_bytes) s

  unfoldable pub east_rfm_read_int : ℕ → Buffer ℕ → ℕ → East → Result (ℤ × Buffer ℕ × East)
  east_rfm_read_int offset array count s = read_packet offset array (count * int_bytes) s
