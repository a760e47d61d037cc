-- ===== src/Daq/Setup.antt =====
-- `acq2106_init` and `setup` of daq_helper.h, without the digital output. The device
-- memory has 16-bit words; the fuel-free loops are those of the parts.
use daux4pcs2m.Base.{
  ℕ, ◌∷◌, ◌*◌, ◌/◌, ◌%◌, ◌^◌, ◌≤◌, ◌<◌, true, List, Option, none, some, ltb, lt→ltb, [],
  if◌then◌else◌, ◌≡◌, refl, arith, length, ap, ◌∙◌,
}
use daux4pcs2m.Base.Int.{ℤ, pos}
use daux4pcs2m.Base.Text.{Text}
use daux4pcs2m.Memory.Result.{
  Result, ok, err, overflow, uninitialised, exited, null_access, dangling_access, ◌>>=◌,
}
use daux4pcs2m.Memory.Buffer.{Buffer, null, freed, live, allocate, HasSize, HasSize-allocate}
use daux4pcs2m.Daq.{Acq, Driver}
use daux4pcs2m.Daq.Scripts.{run_script, init_script, init_script_fits}
use daux4pcs2m.Daq.Parameters.{
  Field, last_entry, or_old, AreShort, max_params, read_parameters, read_parameters_from,
}

abbrev pub nshorts : ℕ
nshorts = 160

-- `VI_LEN`, in bytes
abbrev pub vi_len : ℕ
vi_len = nshorts * 2

abbrev pub max_len : ℕ
max_len = 16 * 64

-- The length of a transfer, which is an unsigned int, and the clipping of it and of the count of the
-- samples.
unfoldable pub clip : Acq → Acq
clip a =
    let len = a.samples_buffer * vi_len % 2 ^ 32 in
    if ltb max_len len
    then record a { len = max_len; samples_buffer = max_len / vi_len }
    else record a { len = len }

unfoldable pub setup : Driver → Acq → Result Acq
setup d a = do
  let logged : Result Acq = if d.log_opens a.settings.devnum then ok a else err exited
  a1 ← logged
  host ← elim (d.mapping a1.settings.devnum) [ some ws ↦ ok (live ws) | none ↦ err exited ]
  let a2 = clip (record a1 {
    ai_buffer = allocate (pos nshorts) 0;
    card_buffer = allocate (pos a1.channels) 0;
    host_buffer = host;
  })
  if d.start_ai_llc a2.len then ok a2 else err exited

-- `ncards * channels`, an int.
unfoldable pub product : ℕ → ℕ → Result ℕ
product a b = if ltb (a * b) (2 ^ 31) then ok (a * b) else err overflow

-- The part behind the script. `none` is a parameter file that cannot be opened. With an empty file the
-- first round of the loop compares a name that was never read.
unfoldable pub configure : Driver → Option (List (Text × ℤ)) → ℕ → ℕ → Acq → Result (ℤ × Acq)
configure d none num_boards num_channels a = ok (pos 0, a)
configure d (some []) num_boards num_channels a = err uninitialised
configure d (some (entry ∷ entries)) num_boards num_channels a = do
  s ← read_parameters 0 (entry ∷ entries) a.settings
  n ← product num_boards num_channels
  a' ← setup d (record a {
    settings = record s { nchan = pos n };
    ncards = num_boards;
    channels = num_channels;
  })
  ok (pos 0, a')

-- `decimal` prints %d.
unfoldable pub acq2106_init :
    (ℤ → Text) → Driver → Option (List (Text × ℤ)) → ℤ → ℕ → ℕ → Acq → Result (ℤ × Acq)
acq2106_init decimal d file cycle_time num_boards num_channels a = do
  a' ← run_script (init_script decimal cycle_time) (record a { clk_div = cycle_time })
  configure d file num_boards num_channels a'

-- The log file is open where the memory is mapped, since `setup` opens it first and the program ends
-- where the mapping fails; closing it where it is not open is undefined.
abbrev unmapped : Buffer ℕ → Result (Buffer ℕ)
unmapped null = err null_access
unmapped freed = err dangling_access
unmapped (live ws) = ok freed

unfoldable pub acq2106_end : Acq → Result (ℤ × Acq)
acq2106_end a = do host ← unmapped a.host_buffer; ok (pos 0, record a { host_buffer = host })

-- After the clipping a transfer is at most 1024 bytes, and holds whole samples of 320 bytes, as many
-- as are counted, whatever the count was, unless the length of the transfer wrapped around.
pub clip_whole :
    (a : Acq)
    → a.samples_buffer * vi_len < 2 ^ 32
    → let b = clip a in
      (b.len ≤ max_len)
      × (b.samples_buffer * vi_len ≤ b.len)
      × (b.samples_buffer ≤ a.samples_buffer)
unfolding clip
clip_whole a small = ground arith

-- The driver serves a device: the log opens, the memory is there, and a transfer starts.
pub record Serves (d : Driver) (devnum : ℤ) (ws : List ℕ) : Type 0 where
  pub log_opens : d.log_opens devnum ≡ true
  pub mapping : d.mapping devnum ≡ some ws
  pub starts : (len : ℕ) → len ≤ max_len → d.start_ai_llc len ≡ true

clip_rest :
    (a : Acq)
    → let b = clip a in
      (b.settings ≡ a.settings)
      × (b.ai_buffer ≡ a.ai_buffer)
      × (b.card_buffer ≡ a.card_buffer)
      × (b.host_buffer ≡ a.host_buffer)
      × (b.clk_div ≡ a.clk_div)
      × (b.scripts ≡ a.scripts)
unfolding clip
clip_rest a = ground arith

setup_serves :
    (d : Driver) (a : Acq) (ws : List ℕ)
    → Serves d a.settings.devnum ws
    → a.samples_buffer * vi_len < 2 ^ 32
    → setup d a
      ≡ ok (
          clip (record a {
            ai_buffer = allocate (pos nshorts) 0;
            card_buffer = allocate (pos a.channels) 0;
            host_buffer = live ws;
          }))
unfolding setup
setup_serves d a ws serves small =
    let whole =
      clip_whole
        (record a {
          ai_buffer = allocate (pos nshorts) 0;
          card_buffer = allocate (pos a.channels) 0;
          host_buffer = live ws;
        })
        small in
    simp (serves.log_opens, serves.mapping, serves.starts _ whole.0)

-- A parameter file of at least one and at most 10 entries with short names, for a device that the
-- driver serves, a count of samples whose length in bytes fits an unsigned int, and boards whose
-- channels together fit an int: the initialisation goes right and returns 0; each variable but the count of channels gets the number of
-- its last entry, or keeps its own; the count of channels is that of the boards, whatever the file
-- says; the sample buffer has 160 shorts, the buffer of a board has its channels, and the memory of
-- the device is mapped. The divider is the time of the cycle, and the script that initialises the
-- device was run once, with that time in its text, of at most 11 characters.
pub acq2106_init_lem :
    (decimal : ℤ → Text) (d : Driver) (entries : List (Text × ℤ)) (cycle_time : ℤ)
    (boards channels : ℕ) (a : Acq) (ws : List ℕ)
    → length (decimal cycle_time) ≤ 11
    → 0 < length entries
    → length entries ≤ max_params
    → boards * channels < 2 ^ 31
    → AreShort entries
    → a.samples_buffer * vi_len < 2 ^ 32
    → Serves d (or_old (last_entry Field.devnum entries) a.settings.devnum) ws
    → (a' : Acq) × (acq2106_init decimal d (some entries) cycle_time boards channels a
        ≡ ok (pos 0, a'))
      × (a'.settings.devnum ≡ or_old (last_entry Field.devnum entries) a.settings.devnum)
      × (a'.settings.aochan ≡ or_old (last_entry Field.aochan entries) a.settings.aochan)
      × (a'.settings.has_do32 ≡ or_old (last_entry Field.has_do32 entries) a.settings.has_do32)
      × (a'.settings.dup1 ≡ or_old (last_entry Field.dup1 entries) a.settings.dup1)
      × (a'.settings.nchan ≡ pos (boards * channels))
      × HasSize nshorts a'.ai_buffer
      × HasSize channels a'.card_buffer
      × (a'.host_buffer ≡ live ws)
      × (a'.clk_div ≡ cycle_time)
      × (a'.scripts ≡ init_script decimal cycle_time ∷ a.scripts)
unfolding acq2106_init configure product
acq2106_init_lem decimal d [] cycle_time boards channels a ws printed some_entry few fits short
      small serves =
    absurd (omega arith)
acq2106_init_lem decimal d (entry ∷ rest) cycle_time boards channels a ws printed some_entry few
      fits short small serves =
    let entries = entry ∷ rest in
    let (s, e, each) = read_parameters_from 0 entries a.settings (omega arith) short in
    let text = init_script decimal cycle_time in
    let run = init_script_fits decimal cycle_time (record a { clk_div = cycle_time }) printed in
    let opened : Acq = record a {
      clk_div = cycle_time;
      scripts = text ∷ a.scripts;
      settings = record s { nchan = pos (boards * channels) };
      ncards = boards;
      channels = channels;
    } in
    let counted = lt→ltb (boards * channels) (2 ^ 31) fits in
    let same_device = each Field.devnum in
    let full : Acq = record opened {
      ai_buffer = allocate (pos nshorts) 0;
      card_buffer = allocate (pos channels) 0;
      host_buffer = live ws;
    } in
    let serves' : Serves d s.devnum ws = rw same_device serves in
    let (rs, ra, rc, rh, rt, rx) = clip_rest full in
    (
      clip full,
      rw run (rw e (rw counted (rw (setup_serves d opened ws serves' small) refl))),
      ap (λ t. t.devnum) rs ∙ same_device,
      ap (λ t. t.aochan) rs ∙ each Field.aochan,
      ap (λ t. t.has_do32) rs ∙ each Field.has_do32,
      ap (λ t. t.dup1) rs ∙ each Field.dup1,
      ap (λ t. t.nchan) rs,
      rw ra (HasSize-allocate {A = ℕ} nshorts 0),
      rw rc (HasSize-allocate {A = ℕ} channels 0),
      rh,
      rt,
      rx,
    )

-- The device that was initialised can be left, once.
pub acq2106_end_once :
    (a : Acq) (ws : List ℕ)
    → a.host_buffer ≡ live ws
    → (b : Acq) × (acq2106_end a ≡ ok (pos 0, b)) × (acq2106_end b ≡ err dangling_access)
unfolding acq2106_end
acq2106_end_once a ws mapped = (record a { host_buffer = freed }, rw mapped refl, refl)
