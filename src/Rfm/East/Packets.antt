-- ===== src/Rfm/East/Packets.antt =====
-- What the packets of east_rfmrt.h bring back, and how long they may be.
use daux4pcs2m.Base.{
  ℕ, ◌*◌, ◌≤◌, ◌<◌, List, ◌≡◌, refl, arith, length, replicate, length-replicate, ◌∙◌, sym,
  Bool-cases, inl, inr, ap,
}
use daux4pcs2m.Base.Int.{ℤ, pos}
use daux4pcs2m.Memory.Result.{Result, ok, err, out_of_bounds, ok-injective}
use daux4pcs2m.Memory.Buffer.{Buffer, live, HasSize}
use daux4pcs2m.Memory.Copy.{memcpy, memset, first_all, paste_fits, paste_whole, paste_beyond}
use daux4pcs2m.Rfm.{Rfm2g, IsReflective, success}
use daux4pcs2m.Rfm.East.{
  East, send, outcome, write_packet, read_packet, east_rfm_write_float, east_rfm_write_int,
  east_rfm_write_short, east_rfm_read_float, east_rfm_read_int, east_rfm_read_short, float_bytes,
  int_bytes, short_bytes,
}

module _ (api : Rfm2g) where
  -- The DMA buffer is there, with a size.
  abbrev pub IsMapped : ℕ → East api → Type 0
  IsMapped size s = HasSize size s.dma

  -- How a packet that fits is sent.
  write_packet_fits :
      (offset size n : ℕ) (xs : List ℕ) (s : East api)
      → IsMapped size s
      → length xs ≡ n
      → n ≤ size
      → (zs : List ℕ) × (length zs ≡ size)
        × (let (status, b) = api.write offset xs s.board in
            write_packet api offset (live xs) n s
            ≡ ok (outcome api (status, record s { board = b; dma = live zs })))
  unfolding write_packet memcpy send
  write_packet_fits offset size n xs s mapped len fits = mapped_fits s.dma refl
    where
      mapped_fits :
          (dma : Buffer ℕ)
          → s.dma ≡ dma
          → (zs : List ℕ) × (length zs ≡ size)
            × (let (status, b) = api.write offset xs s.board in
                write_packet api offset (live xs) n s
                ≡ ok (outcome api (status, record s { board = b; dma = live zs })))
      mapped_fits (live ys) e =
          let count : length ys ≡ size = rw e at mapped in
          let (zs, p, same, f) = paste_fits xs ys n len (omega arith) in
          (zs, same ∙ count, rw e (rw (first_all xs n len) (rw p (rw f))))
      mapped_fits _ e = absurd (rw e at mapped)

  read_packet_gets :
      (offset size n : ℕ) (xs ys : List ℕ) (s : East api) (b : api.Board)
      → IsMapped size s
      → length xs ≡ n
      → length ys ≡ n
      → n ≤ size
      → api.read offset n s.board ≡ (0, xs, b)
      → (s' : East api) × (read_packet api offset (live ys) n s ≡ ok (pos 0, live xs, s'))
  unfolding read_packet memcpy memset
  read_packet_gets offset size n xs ys s b mapped lx ly fits got = gets s.dma refl
    where
      gets :
          (dma : Buffer ℕ)
          → s.dma ≡ dma
          → (s' : East api) × (read_packet api offset (live ys) n s ≡ ok (pos 0, live xs, s'))
      gets (live ds) e =
          let count : length ds ≡ size = rw e at mapped in
          let zeros : length {A = ℕ} (replicate n 0) ≡ n = length-replicate {A = ℕ} n 0 in
          let (zs, p, same, f) = paste_fits (replicate {A = ℕ} n 0) ds n zeros (omega arith) in
          let (ws, p', same', front) = paste_fits xs zs n lx (omega arith) in
          (
            record s { board = b; dma = live ws },
            rw e (rw p (rw got (rw p' (rw front (rw (paste_whole xs ys (omega arith)) refl))))),
          )
      gets _ e = absurd (rw e at mapped)

  read_write_packet :
      IsReflective api
      → (offset size n : ℕ) (xs ys : List ℕ) (s s' : East api) → IsMapped size s
      → n ≤ size
      → length xs ≡ n
      → length ys ≡ n
      → write_packet api offset (live xs) n s ≡ ok (pos 0, s')
      → (s'' : East api) × (read_packet api offset (live ys) n s' ≡ ok (pos 0, live xs, s''))
  read_write_packet law offset size n xs ys s s' mapped fits lx ly written =
      let (zs, count, e) = write_packet_fits offset size n xs s mapped lx fits in
      let r = api.write offset xs s.board in
      let sent : East api = record s { board = r.1; dma = live zs } in
      let done = ok-injective (sym e ∙ written) in
      elim (Bool-cases (success r.0)) [
        | inl good ↦
            let zero_status : r.0 ≡ 0 = ground arith in
            let after : sent ≡ s' = ap (λ q. q.1) (rw good at done) in
            let (b, got) = law.read_back offset xs s.board r.1 (rw zero_status refl) in
            let got' : api.read offset n r.1 ≡ (0, xs, b) = rw lx at got in
            rw⁻¹ after (read_packet_gets offset size n xs ys sent b count lx ly fits got')
        | inr bad ↦ let code = ap (λ q. q.0) (rw bad at done) in absurd (cc)
      ]

-- The three kinds of numbers.
pub data Kind : Type 0 where
  floats ints shorts : Kind

abbrev pub bytes_of : Kind → ℕ
bytes_of floats = float_bytes
bytes_of ints = int_bytes
bytes_of shorts = short_bytes

module _ (api : Rfm2g) where
  abbrev pub write_of : Kind → ℕ → Buffer ℕ → ℕ → East api → Result (ℤ × East api)
  write_of floats = east_rfm_write_float api
  write_of ints = east_rfm_write_int api
  write_of shorts = east_rfm_write_short api

  abbrev pub read_of : Kind → ℕ → Buffer ℕ → ℕ → East api → Result (ℤ × Buffer ℕ × East api)
  read_of floats = east_rfm_read_float api
  read_of ints = east_rfm_read_int api
  read_of shorts = east_rfm_read_short api

  write_of-packet :
      (k : Kind) (offset count : ℕ) (xs : Buffer ℕ) (s : East api)
      → write_of k offset xs count s ≡ write_packet api offset xs (count * bytes_of k) s
  unfolding east_rfm_write_float east_rfm_write_int east_rfm_write_short
  write_of-packet floats offset count xs s = refl
  write_of-packet ints offset count xs s = refl
  write_of-packet shorts offset count xs s = refl

  read_of-packet :
      (k : Kind) (offset count : ℕ) (ys : Buffer ℕ) (s : East api)
      → read_of k offset ys count s ≡ read_packet api offset ys (count * bytes_of k) s
  unfolding east_rfm_read_float east_rfm_read_int east_rfm_read_short
  read_of-packet floats offset count ys s = refl
  read_of-packet ints offset count ys s = refl
  read_of-packet shorts offset count ys s = refl

  -- Floats, ints and shorts come back as they were sent: when a packet of `count` numbers that fits
  -- the DMA buffer is written without an error, reading as many numbers of the same kind at the same
  -- offset succeeds and fills the array with the bytes that were written, where the library delivers
  -- what was just written.
  pub read_of-write_of :
      IsReflective api
      → (k : Kind) (offset size count : ℕ) (xs ys : List ℕ) (s s' : East api) → IsMapped api size s
      → count * bytes_of k ≤ size
      → length xs ≡ count * bytes_of k
      → length ys ≡ count * bytes_of k
      → write_of k offset (live xs) count s ≡ ok (pos 0, s')
      → (s'' : East api) × (read_of k offset (live ys) count s' ≡ ok (pos 0, live xs, s''))
  read_of-write_of law k offset size count xs ys s s' mapped fits lx ly written =
      rw (read_of-packet k offset count (live ys) s') (
        read_write_packet api law offset size (count * bytes_of k) xs ys s s' mapped fits lx ly
          (sym (write_of-packet k offset count (live xs) s) ∙ written))

  -- A packet that is longer than the DMA buffer is written past the end of it, whatever its kind.
  pub write_of_beyond :
      (k : Kind) (offset size count : ℕ) (xs : List ℕ) (s : East api)
      → IsMapped api size s
      → length xs ≡ count * bytes_of k
      → size < count * bytes_of k
      → write_of k offset (live xs) count s ≡ err out_of_bounds
  unfolding write_packet memcpy
  write_of_beyond k offset size count xs s mapped lx long =
      rw (write_of-packet k offset count (live xs) s) (beyond s.dma refl)
    where
      beyond :
          (dma : Buffer ℕ)
          → s.dma ≡ dma
          → write_packet api offset (live xs) (count * bytes_of k) s ≡ err out_of_bounds
      beyond (live ds) e =
          let size_ds : length ds ≡ size = rw e at mapped in
          rw e (rw (first_all xs (count * bytes_of k) lx) (rw (paste_beyond xs ds (omega arith))))
      beyond _ e = absurd (rw e at mapped)
