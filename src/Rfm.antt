-- ===== src/Rfm.antt =====
-- Reflective memory: the library's functions that the program calls (rfm2g_api.h), as an interface.
-- A status is its number, and RFM2G_SUCCESS is 0. `Board` is the library's state.
pub mod East
pub mod Direct
pub mod Helper
use daux4pcs2m.Base.{ℕ, List, ◌≡◌, length, Bool, ◌==◌}

pub record Rfm2g : Type 1 where
  pub Board : Type 0
  pub open_board : Board → ℕ × Board
  -- RFM2gUserMemoryBytes, from an offset and for a number of bytes, with the bytes that are there
  pub user_memory : ℕ → ℕ → Board → ℕ × List ℕ × Board
  -- RFM2gUserMemory, from an offset and for a number of pages
  pub user_pages : ℕ → ℕ → Board → ℕ × List ℕ × Board
  pub unmap : ℕ → Board → ℕ × Board
  pub set_dma_threshold : ℕ → Board → ℕ × Board
  -- RFM2gWrite at an offset, and RFM2gRead of a number of bytes, with those that it delivers
  pub write : ℕ → List ℕ → Board → ℕ × Board
  pub read : ℕ → ℕ → Board → ℕ × List ℕ × Board
  pub close : Board → ℕ × Board

-- What the library promises: a read of what has just been written at the same offset succeeds and
-- delivers it.
pub record IsReflective (api : Rfm2g) : Type 0 where
  pub read_back :
      (offset : ℕ) (bytes : List ℕ) (b b' : api.Board)
      → api.write offset bytes b ≡ (0, b')
      → (b'' : api.Board) × (api.read offset (length bytes) b' ≡ (0, bytes, b''))

abbrev pub success : ℕ → Bool
success status = status == 0
