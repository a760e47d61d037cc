-- ===== src/Tests/Device.antt =====
-- The acquisition on concrete input.
use daux4pcs2m.Base.{
  ltb, if◌then◌else◌, ℕ, ◌*◌, List, [], ◌∷◌, some, ◌≡◌, refl, arith, true, get_elem?, ◌+◌,
}
use daux4pcs2m.Base.Int.{ℤ, pos}
use daux4pcs2m.Base.Text.{Text, codes}
use daux4pcs2m.Memory.Result.{ok}
use daux4pcs2m.Memory.Buffer.{live, HasSize}
use daux4pcs2m.Daq.{Acq, Driver, acq_init}
use daux4pcs2m.Daq.Parameters.{Field, or_old, last_entry}
use daux4pcs2m.Daq.Scripts.{init_script}
use daux4pcs2m.Tests.Serve.{decimal}
use daux4pcs2m.Daq.Setup.{acq2106_init, acq2106_init_lem, Serves, nshorts}
use daux4pcs2m.Daq.Cards.{acq2106_get_data_pointer, acq2106_get_data_pointer_half}

abbrev driver : Driver
driver = record {
  log_opens = λ devnum. true;
  mapping = λ devnum. some (1 ∷ 2 ∷ []);
  start_ai_llc = λ len. true;
}

-- The file of the repository, less its last two lines.
abbrev pub parameter_file : List (Text × ℤ)
parameter_file =
    (codes "DEVNUM", pos 0)
    ∷ (codes "AOCHAN", pos 32)
    ∷ (codes "DO32", pos 1)
    ∷ (codes "DUP1", pos 0)
    ∷ (codes "AICHAN", pos 128)
    ∷ []

abbrev served : Serves driver (or_old (last_entry Field.devnum parameter_file) (pos 0)) (1 ∷ 2 ∷ [])
served = record { log_opens = refl; mapping = refl; starts = λ len small. refl }

acq2106_init_lem_example :
    (a : Acq) × (acq2106_init decimal driver (some parameter_file) (pos 50) 4 32 acq_init
      ≡ ok (pos 0, a))
    × (a.settings.devnum ≡ or_old (last_entry Field.devnum parameter_file) (pos 0))
    × (a.settings.aochan ≡ or_old (last_entry Field.aochan parameter_file) (pos 32))
    × (a.settings.has_do32 ≡ or_old (last_entry Field.has_do32 parameter_file) (pos 0))
    × (a.settings.dup1 ≡ or_old (last_entry Field.dup1 parameter_file) (pos 0))
    × (a.settings.nchan ≡ pos (4 * 32))
    × HasSize nshorts a.ai_buffer
    × HasSize 32 a.card_buffer
    × (a.host_buffer ≡ live (1 ∷ 2 ∷ []))
    × (a.clk_div ≡ pos 50)
    × (a.scripts ≡ init_script decimal (pos 50) ∷ [])
acq2106_init_lem_example =
    acq2106_init_lem decimal driver parameter_file (pos 50) 4 32 acq_init (1 ∷ 2 ∷ []) (omega arith)
      (omega arith) (omega arith) (omega arith)
      (omega arith, (omega arith, (omega arith, (omega arith, (omega arith, tt))))) (omega arith)
      served

abbrev sampled : Acq
sampled = record acq_init {
  channels = 2;
  ai_buffer = live (10 ∷ 11 ∷ 12 ∷ 13 ∷ []);
  card_buffer = live (0 ∷ 0 ∷ []);
}

acq2106_get_data_pointer_half_example :
    (card : List ℕ) × (acq2106_get_data_pointer 1 sampled
      ≡ ok (record sampled { card_buffer = live card }))
    × ((i : ℕ)
        → get_elem? card i ≡ (
            if ltb i 1
            then get_elem? (10 ∷ 11 ∷ 12 ∷ 13 ∷ []) (1 * 2 + i)
            else get_elem? (0 ∷ 0 ∷ []) i))
acq2106_get_data_pointer_half_example =
    acq2106_get_data_pointer_half 1 1 sampled (10 ∷ 11 ∷ 12 ∷ 13 ∷ []) (0 ∷ 0 ∷ []) refl refl refl
      (omega arith) refl
