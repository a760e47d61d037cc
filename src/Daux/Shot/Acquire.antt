-- ===== src/Daux/Shot/Acquire.antt =====
-- A shot of daux.c that only acquires.
use daux4pcs2m.Base.{
  ℕ, zero, suc, ◌+◌, ◌*◌, ◌≤◌, ◌<◌, true, List, [], ◌∷◌, ◌≡◌, refl, arith, length, ltb, ◌==◌, ap,
  if◌then◌else◌, All, Bool-cases, inl, inr, ◌∙◌,
}
use daux4pcs2m.Base.Int.{ℤ}
use daux4pcs2m.Real.{Ieee, Float, Dbl, ◌⊗◌, ◌⊕◌}
use daux4pcs2m.Memory.Result.{ok, Ends, Ends-ok}
use daux4pcs2m.Memory.Buffer.{Buffer, HasSize, read_list_within, write_within}
use daux4pcs2m.Memory.Copy.{first_within}
use daux4pcs2m.Rfm.{Rfm2g}
use daux4pcs2m.Rfm.Helper.{Link, transmit, bytes_of_shorts}
use daux4pcs2m.Vs.State.{Vs}
use daux4pcs2m.Vs.Cycle.{Calc}
use daux4pcs2m.Daux.Options.{Options}
use daux4pcs2m.Daux.Shot.{
  Daq, add_baseline, collect_baseline, cleared, save_channels, process, run, cycles, chns, ncbl,
  time_of, bits_to_raw,
}

-- Where the pointer behind the last one would lead.
abbrev end_of : ℕ → ℕ → ℕ → ℕ
end_of start n zero = start
end_of start n (suc left) = end_of (start + n) n left

end_of_above : (start n left : ℕ) → start ≤ end_of start n left
end_of_above start n zero = omega arith
end_of_above start n (suc left) = omega (arith, end_of_above (start + n) n left)

module _ ⦃m : Ieee⦄ where
  length-add_baseline :
      (total : ℕ) (raw : List ℤ) (bs : List Float) → length (add_baseline total raw bs) ≡ length bs
  unfolding add_baseline
  length-add_baseline total [] bs = refl
  length-add_baseline total (r ∷ rs) [] = refl
  length-add_baseline total (r ∷ rs) (b ∷ bs) = ap suc (length-add_baseline total rs bs)

  length-cleared : (bs : List Float) → length (cleared bs) ≡ length bs
  length-cleared [] = refl
  length-cleared (b ∷ bs) = ap suc (length-cleared bs)

  length-collect_baseline :
      (cycle total : ℕ) (raw : List ℤ) (bs : List Float)
      → length (collect_baseline cycle total raw bs) ≡ length bs
  unfolding collect_baseline
  length-collect_baseline cycle total raw bs = elim (Bool-cases (cycle == 0)) [
    | inl first ↦ rw first (length-add_baseline total raw (cleared bs) ∙ length-cleared bs)
    | inr later ↦ rw later (length-add_baseline total raw bs)
  ]

  save_channels_within :
      (left idx start n sss size : ℕ) (calib : List Float) (raw : List ℤ) (bs : List Float)
      (values : Buffer Float)
      → sss < n
      → HasSize size values
      → end_of start n left ≤ size
      → idx + left ≤ length calib
      → idx + left ≤ length raw
      → idx + left ≤ length bs
      → Ends (HasSize size) (save_channels left idx start n sss calib raw bs values)
  unfolding save_channels
  save_channels_within zero idx start n sss size calib raw bs values below h room hc hr hb =
      Ends-ok values h
  save_channels_within (suc left) idx start n sss size calib raw bs values below h room hc hr hb =
      let (r, er) = read_list_within raw idx (omega arith) in
      let (c, ec) = read_list_within calib idx (omega arith) in
      let (b, eb) = read_list_within bs idx (omega arith) in
      let inside : start + sss < size = omega (arith, end_of_above (start + n) n left) in
      let (values', ew, h', _) =
        write_within values size (start + sss) (bits_to_raw (m.of_int r ⊗ c) ⊕ b) h inside in
      rw er (
        rw ec (
          rw eb (
            rw ew (
              save_channels_within left (idx + 1) (start + n) n sss size calib raw bs values' below
                h' room (omega arith) (omega arith) (omega arith)))))

-- Each cycle brings the data of all channels.
abbrev pub HaveData : List (List ℤ) → Type 0
HaveData = All λ raw. chns ≤ length raw

module _ ⦃m : Ieee⦄ {api : Rfm2g} {I : Type 0} (n : ℕ) where
  -- The arrays of a shot of `n` cycles are there, and the control is in this state.
  pub record IsOpen (s : Vs I) (d : Daq api I) : Type 0 where
    pub timebase : HasSize n d.timebase
    pub signal_data : HasSize (chns * n) d.signal_data
    pub baseline : length d.baseline ≡ chns
    pub vs : d.vs ≡ s

module _ ⦃m : Ieee⦄ {api : Rfm2g} {I : Type 0} (calc : Calc I) (o : Options) (calib : List Float)
    (tick : Dbl) (n : ℕ) where
  -- The access to the arrays in a cycle goes right when the processing of its data does.
  pub run_within :
      (sss : ℕ) (raw : List ℤ) (s t : Vs I) (link : Link api) (d : Daq api I)
      → process calc o calib tick n raw (time_of tick sss) d.link s ≡ ok (link, t)
      → length calib ≡ chns
      → IsOpen n s d
      → sss < n
      → chns ≤ length raw
      → Ends (IsOpen n t) (run calc o calib tick n sss raw d)
  unfolding run
  run_within sss raw s t link d processed factors h below channels =
      let bs = if ltb sss ncbl then collect_baseline sss ncbl raw d.baseline else d.baseline in
      let size : length bs ≡ chns = elim (Bool-cases (ltb sss ncbl)) [
        | inl early ↦ rw early (length-collect_baseline sss ncbl raw d.baseline ∙ h.baseline)
        | inr late ↦ rw late h.baseline
      ] in
      let saved =
        save_channels_within chns 0 0 n sss (chns * n) calib raw bs d.signal_data below
          h.signal_data (omega arith) (omega arith) (omega arith) (omega arith) in
      let processed' : process calc o calib tick n raw (time_of tick sss) d.link d.vs
          ≡ ok (link, t) =
        ap (process calc o calib tick n raw (time_of tick sss) d.link) h.vs ∙ processed in
      elim (Bool-cases o.saveall) [
        | inl saving ↦
            simp (saving, saved.returns, processed')
              (Ends-ok _ (record {
                timebase = h.timebase;
                signal_data = saved.holds;
                baseline = size;
                vs = refl;
              }))
        | inr skipping ↦
            simp (skipping, processed')
              (Ends-ok _ (record {
                timebase = h.timebase;
                signal_data = h.signal_data;
                baseline = size;
                vs = refl;
              }))
      ]

  run_ready :
      (sss : ℕ) (raw : List ℤ) (s : Vs I) (d : Daq api I)
      → o.acqonly ≡ true
      → length calib ≡ chns
      → IsOpen n s d
      → sss < n
      → chns ≤ length raw
      → Ends (IsOpen n s) (run calc o calib tick n sss raw d)
  unfolding process
  run_ready sss raw s d only factors h below channels =
      let (sent, es, _) = first_within raw chns channels in
      run_within sss raw s s (transmit api (bytes_of_shorts sent) d.link) d (rw only (rw es refl))
        factors h below channels

  -- With `-q`, the cycles of a shot up to its last one go right, whatever the data is and whether or
  -- not it is saved: no access is out of bounds, the arrays are still in order, and the state of the
  -- control is as before. It wants arrays for `n` samples, 96 calibration factors and 96 channels in
  -- each cycle.
  pub cycles-IsOpen :
      (sss : ℕ) (raws : List (List ℤ)) (s : Vs I) (d : Daq api I)
      → o.acqonly ≡ true
      → length calib ≡ chns
      → IsOpen n s d
      → sss + length raws ≤ n
      → HaveData raws
      → (d' : Daq api I) × (cycles calc o calib tick n sss raws d ≡ ok d') × IsOpen n s d'
  unfolding cycles
  cycles-IsOpen sss [] s d only factors h room values = (d, refl, h)
  cycles-IsOpen sss (raw ∷ raws) s d only factors h room (now, later) =
      let r = run_ready sss raw s d only factors h (omega arith) now in
      let k = r.holds in
      let (timebase, ew, ht, _) =
        write_within r.value.timebase n sss (time_of tick sss) k.timebase (omega arith) in
      let next : Daq api I = record r.value { timebase = timebase } in
      let open_next : IsOpen n s next = record {
        timebase = ht;
        signal_data = k.signal_data;
        baseline = k.baseline;
        vs = k.vs;
      } in
      let (d', e, k') =
        cycles-IsOpen (sss + 1) raws s next only factors open_next (omega arith) later in
      (d', rw r.returns (rw ew e), k')
