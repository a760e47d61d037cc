-- ===== src/Tests/Reflective.antt =====
-- The reflective memory on concrete input: a board that keeps the last write.
use daux4pcs2m.Base.{
  ◌*◌, ℕ, List, [], ◌∷◌, Option, none, some, ◌≡◌, refl, arith, replicate, ◌==◌, if◌then◌else◌, true,
  ap,
}
use daux4pcs2m.Base.Int.{pos}
use daux4pcs2m.Memory.Result.{ok}
use daux4pcs2m.Memory.Buffer.{live, freed}
use daux4pcs2m.Memory.Copy.{first, paste, memcpy}
use daux4pcs2m.Rfm.{Rfm2g, IsReflective}
use daux4pcs2m.Rfm.East.{
  East, east_rfm_close, east_rfm_write_float, write_packet, send, shut_down, clear_scope,
}
use daux4pcs2m.Rfm.East.Packets.{read_of, read_of-write_of, floats}

abbrev pub Kept : Type 0
Kept = Option (ℕ × List ℕ)

abbrev read_kept : ℕ → Kept → ℕ × List ℕ × Kept
read_kept offset none = (1, [], none)
read_kept offset (some (at, bytes)) =
    if offset == at then (0, bytes, some (at, bytes)) else (1, [], some (at, bytes))

abbrev pub board : Rfm2g
board = record {
  Board = Kept;
  open_board = λ b. (0, b);
  user_memory = λ offset n b. (0, replicate n 0, b);
  user_pages = λ offset n b. (0, replicate (n * 4096) 0, b);
  unmap = λ n b. (0, b);
  set_dma_threshold = λ n b. (0, b);
  write = λ offset bytes b. (0, some (offset, bytes));
  read = λ offset n b. read_kept offset b;
  close = λ b. (0, none);
}

pub board-IsReflective : IsReflective board
board-IsReflective = record {
  read_back = λ offset bytes b b' written.
      let kept : some (offset, bytes) ≡ b' = ap (λ q. q.1) written in
      let same : (offset == offset) ≡ true = ground arith in
      (some (offset, bytes), rw⁻¹ kept (rw same refl));
}

abbrev mapped : East board
mapped = record { board = none; init_status = 1; dma = live (9 ∷ 9 ∷ 9 ∷ 9 ∷ 9 ∷ []) }

abbrev one_float : List ℕ
one_float = 1 ∷ 2 ∷ 3 ∷ 4 ∷ []

abbrev written_float : East board
written_float = record mapped { board = some (5, one_float); dma = live (1 ∷ 2 ∷ 3 ∷ 4 ∷ 9 ∷ []) }

written_floats : east_rfm_write_float board 5 (live one_float) 1 mapped ≡ ok (pos 0, written_float)
unfolding east_rfm_write_float write_packet memcpy first paste send
written_floats = refl

read_of-write_of_example :
    (s : East board) × (read_of board floats 5 (live (7 ∷ 7 ∷ 7 ∷ 7 ∷ [])) 1 written_float
      ≡ ok (pos 0, live one_float, s))
read_of-write_of_example =
    read_of-write_of board board-IsReflective floats 5 5 1 one_float (7 ∷ 7 ∷ 7 ∷ 7 ∷ []) mapped
      written_float refl (omega arith) refl refl written_floats

abbrev opened : East board
opened = record { board = none; init_status = 1; dma = live (replicate 1200 9) }

abbrev closed : East board
closed = record { board = none; init_status = 0; dma = freed }

closes : east_rfm_close board opened ≡ ok (pos 0, closed)
unfolding east_rfm_close shut_down clear_scope memcpy first paste send
closes = refl
