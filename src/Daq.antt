-- ===== src/Daq.antt =====
-- The acquisition in daq_helper.h: its state, and what it asks of the driver. Arrays of short are
-- their 16-bit words, the mapped memory of the device too.
pub mod Parameters
pub mod Scripts
pub mod Setup
pub mod Words
pub mod Cards
pub mod Ident
use daux4pcs2m.Base.Text.{Text}
use daux4pcs2m.Base.{ℕ, List, [], Option, Bool}
use daux4pcs2m.Base.Int.{ℤ, pos}
use daux4pcs2m.Memory.Buffer.{Buffer, null}

-- The globals that `parameter.txt` sets.
pub record Settings : Type 0 where
  pub devnum : ℤ
  pub aochan : ℤ
  pub has_do32 : ℤ
  pub dup1 : ℤ
  pub nchan : ℤ

pub record Acq : Type 0 where
  pub settings : Settings
  pub ncards : ℕ
  pub channels : ℕ
  pub clk_div : ℤ
  pub samples_buffer : ℕ
  -- `xllc_def.len`
  pub len : ℕ
  pub ai_buffer : Buffer ℕ
  pub card_buffer : Buffer ℕ
  pub host_buffer : Buffer ℕ
  -- The texts that were given to `system`, the last one first.
  pub scripts : List Text

-- The values of the globals at the start.
abbrev pub acq_init : Acq
acq_init = record {
  settings = record {
    devnum = pos 0;
    aochan = pos 32;
    has_do32 = pos 0;
    dup1 = pos 0;
    nchan = pos 16;
  };
  ncards = 4;
  channels = 32;
  clk_div = pos 10;
  samples_buffer = 1;
  len = 0;
  ai_buffer = null;
  card_buffer = null;
  host_buffer = null;
  scripts = [];
}

-- The driver: whether the log file opens, the words of the mapped device memory (`none` where
-- `get_mapping` exits), and whether the ioctl that starts the acquisition of a length succeeds.
pub record Driver : Type 0 where
  pub log_opens : ℤ → Bool
  pub mapping : ℤ → Option (List ℕ)
  pub start_ai_llc : ℕ → Bool
