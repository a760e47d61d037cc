-- ===== src/Rfm/Direct.antt =====
-- The variant east_rfmrt-2.h: numbers go to the reflective memory without the DMA buffer, and a call
-- that fails leaves the board open.
use daux4pcs2m.Base.{
  ℕ, ◌*◌, ◌/◌, List, Option, none, some, ◌==◌, if◌then◌else◌, ◌≡◌, refl, arith, length, sym, ◌∙◌,
  ap, Bool-cases, inl, inr,
}
use daux4pcs2m.Base.Int.{ℤ, pos, negsuc}
use daux4pcs2m.Memory.Result.{Result, ok, ◌>>=◌, ok-injective}
use daux4pcs2m.Memory.Buffer.{Buffer, live, contents}
use daux4pcs2m.Memory.Copy.{first, paste, first_all, paste_whole}
use daux4pcs2m.Rfm.{Rfm2g, IsReflective, success}

-- `PAGE_SIZE`
abbrev page_size : ℕ
page_size = 4096

module _ (api : Rfm2g) where
  -- `rfmhndl`, `rfm_init_status` and `pDmaMemory`.
  pub record Direct : Type 0 where
    pub board : api.Board
    pub init_status : ℕ
    pub dma : Buffer ℕ

  -- For a size that is not negative.
  unfoldable pub east_rfm_init : ℕ → Direct → ℤ × Direct
  east_rfm_init bufsize s =
      let (opened, b1) = api.open_board s.board in
      let (mapped, bytes, b2) = api.user_pages 0 (bufsize / page_size) b1 in
      let (set, b3) = api.set_dma_threshold 16 b2 in
      if success opened
      then (if success mapped
          then (if success set
              then (pos set, record { board = b3; init_status = 1; dma = live bytes })
              else (negsuc 0, record s { board = (api.close b3).1; dma = live bytes }))
          else (negsuc 0, record s { board = (api.close b2).1 }))
      else (negsuc 0, record s { board = b1 })

  -- `return;` of a closed one leaves no value.
  unfoldable pub east_rfm_close : Direct → Option ℤ × Direct
  east_rfm_close s =
      if s.init_status == 0
      then (none, s)
      else (some (pos 0), record s { board = (api.close s.board).1; init_status = 0 })

  abbrev pub get_rfm_status : Direct → ℕ
  get_rfm_status s = s.init_status

  abbrev pub get_rfm_map : Direct → Buffer ℕ
  get_rfm_map s = s.dma

  abbrev pub code_of : ℕ → ℤ
  code_of status = if success status then pos 0 else negsuc 0

  -- The write of a number of bytes of an array.
  unfoldable pub write_bytes : ℕ → Buffer ℕ → ℕ → Direct → Result (ℤ × Direct)
  write_bytes offset array n s = do
    bytes ← contents array
    part ← first n bytes
    let (status, b) = api.write offset part s.board
    ok (code_of status, record s { board = b })

  unfoldable pub east_rfm_write : ℕ → Buffer ℕ → ℕ → Direct → Result (ℤ × Direct)
  east_rfm_write offset array count s = write_bytes offset array (count * 4) s

  unfoldable pub east_rfm_write_short : ℕ → Buffer ℕ → ℕ → Direct → Result (ℤ × Direct)
  east_rfm_write_short offset array count s = write_bytes offset array (count * 2) s

  -- And the read of a number of bytes into an array.
  unfoldable pub read_bytes : ℕ → Buffer ℕ → ℕ → Direct → Result (ℤ × Buffer ℕ × Direct)
  read_bytes offset array n s = do
    bytes ← contents array
    let (status, delivered, b) = api.read offset n s.board
    new ← paste delivered bytes
    ok (code_of status, live new, record s { board = b })

  unfoldable pub rfm_read_int : ℕ → Buffer ℕ → ℕ → Direct → Result (ℤ × Buffer ℕ × Direct)
  rfm_read_int offset array count s = read_bytes offset array (count * 4) s

  unfoldable pub rfm_read_float : ℕ → Buffer ℕ → ℕ → Direct → Result (ℤ × Buffer ℕ × Direct)
  rfm_read_float offset array count s = read_bytes offset array (count * 4) s

  -- Floats of any count come back as they were written, since no buffer bounds them here.
  pub rfm_read_float-east_rfm_write :
      IsReflective api
      → (offset count : ℕ) (xs ys : List ℕ) (s s' : Direct) → length xs ≡ count * 4
      → length ys ≡ count * 4
      → east_rfm_write offset (live xs) count s ≡ ok (pos 0, s')
      → (s'' : Direct) × (rfm_read_float offset (live ys) count s' ≡ ok (pos 0, live xs, s''))
  unfolding rfm_read_float east_rfm_write read_bytes write_bytes
  rfm_read_float-east_rfm_write law offset count xs ys s s' lx ly written =
      let r = api.write offset xs s.board in
      let sent : Direct = record s { board = r.1 } in
      let whole = rw (first_all xs (count * 4) lx) at written in
      let done : (code_of r.0, sent) ≡ (pos 0, s') = ok-injective whole in
      elim (Bool-cases (success r.0)) [
        | inl good ↦
            let zero_status : r.0 ≡ 0 = ground arith in
            let after : sent ≡ s' = ap (λ q. q.1) done in
            let (b, got) = law.read_back offset xs s.board r.1 (rw zero_status refl) in
            let got' : api.read offset (count * 4) r.1 ≡ (0, xs, b) = rw lx at got in
            let read_sent : read_bytes offset (live ys) (count * 4) sent
                ≡ ok (pos 0, live xs, record sent { board = b }) =
              rw got' (rw (paste_whole xs ys (lx ∙ sym ly)) refl) in
            rw⁻¹ after (record sent { board = b }, read_sent)
        | inr bad ↦ let code = ap (λ q. q.0) (rw bad at done) in absurd (cc)
      ]
