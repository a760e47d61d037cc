-- ===== src/Daux/Signals/Rows.antt =====
-- What daux.c archives of the acquisition, from the data of the cycles to the MDSplus library.
use daux4pcs2m.Base.{
  ℕ, zero, suc, ◌+◌, ◌*◌, ◌<◌, true, List, [], ◌∷◌, ◌≡◌, refl, arith, length, ◌∙◌, ap, sym,
}
use daux4pcs2m.Base.Int.{ℤ}
use daux4pcs2m.Base.Text.{Text}
use daux4pcs2m.Real.{Ieee, Float, Dbl}
use daux4pcs2m.Memory.Result.{Result, ok, ◌>>=◌, >>=-nested}
use daux4pcs2m.Memory.Buffer.{Buffer, read}
use daux4pcs2m.Rfm.{Rfm2g}
use daux4pcs2m.Vs.State.{Vs}
use daux4pcs2m.Vs.Cycle.{Calc}
use daux4pcs2m.Vs.Archive.{elements}
use daux4pcs2m.Mds.{MdsLib, write_signal}
use daux4pcs2m.Daux.Options.{Options}
use daux4pcs2m.Daux.Shot.{Daq, cycles, chns, time_of}
use daux4pcs2m.Daux.Shot.Acquire.{IsOpen, HaveData, cycles-IsOpen}
use daux4pcs2m.Daux.Shot.Columns.{sample, collected, entry}
use daux4pcs2m.Daux.Shot.Table.{cycles-entry}
use daux4pcs2m.Daux.Signals.{signal_list, save_channels_of, save_signal}
use daux4pcs2m.Daux.Signals.Saved.{save_signal_within}
use native.Mathlib.Nat.{suc-mul}

module _ ⦃m : Ieee⦄ (calib : List Float) (tick : Dbl) where
  -- The row of a channel in the table of the shot, from the cycle `sss` on.
  abbrev pub row : ℕ → ℕ → List (List ℤ) → List Float → Result (List Float)
  row k sss [] bs = ok []
  row k sss (raw ∷ raws) bs = do
    v ← sample calib raw (collected calib sss raw bs) k
    vs ← row k (sss + 1) raws (collected calib sss raw bs)
    ok (v ∷ vs)

  -- The times of as many cycles.
  abbrev pub times : ℕ → ℕ → List Float
  times sss zero = []
  times sss (suc left) = time_of tick sss ∷ times (sss + 1) left

  elements-row :
      (k sss start : ℕ) (raws : List (List ℤ)) (bs : List Float) (y : Buffer Float)
      → ((j : ℕ) → j < length raws → read y (start + j) ≡ entry calib k sss raws j bs)
      → elements (length raws) start y ≡ row k sss raws bs
  unfolding elements
  elements-row k sss start [] bs y shown = refl
  elements-row k sss start (raw ∷ raws) bs y shown =
      let plain : start + 0 ≡ start = omega arith in
      let here : read y start ≡ sample calib raw (collected calib sss raw bs) k =
        ap (read y) (sym plain) ∙ shown 0 (omega arith) in
      let rest =
        elements-row k (sss + 1) (start + 1) raws (collected calib sss raw bs) y (λ j below.
          let next : start + suc j ≡ start + 1 + j = omega arith in
          ap (read y) (sym next) ∙ shown (suc j) (omega arith)) in
      rw here (rw rest refl)

  elements-times :
      (sss left : ℕ) (x : Buffer Float)
      → ((j : ℕ) → j < left → read x (sss + j) ≡ ok (time_of tick (sss + j)))
      → elements left sss x ≡ ok (times sss left)
  unfolding elements
  elements-times sss zero x shown = refl
  elements-times sss (suc left) x shown =
      let plain : sss + 0 ≡ sss = omega arith in
      let here : read x sss ≡ ok (time_of tick sss) =
        ap (read x) (sym plain) ∙ shown 0 (omega arith) ∙ ap (λ i. ok (time_of tick i)) plain in
      let rest = elements-times (sss + 1) left x (λ j below.
        let next : sss + suc j ≡ sss + 1 + j = omega arith in
        ap (read x) (sym next)
        ∙ shown (suc j) (omega arith)
        ∙ ap (λ i. ok (time_of tick i)) next) in
      rw here (rw rest refl)

module _ ⦃m : Ieee⦄ (lib : MdsLib) (calib : List Float) (tick : Dbl) (raws : List (List ℤ))
    (bs : List Float) where
  -- The rows of the channels from `k` on go to the nodes of these names, each with the times.
  abbrev pub put_rows : List Text → ℕ → lib.Session → Result lib.Session
  put_rows [] k s = ok s
  put_rows (name ∷ names) k s = do
    values ← row calib tick k 0 raws bs
    put_rows names (k + 1) (lib.put name values (times calib tick 0 (length raws)) s).1

  save_channels_of-rows :
      (names : List Text) (k : ℕ) (x y : Buffer Float) (s : lib.Session)
      → elements (length raws) 0 x ≡ ok (times calib tick 0 (length raws))
      → ((l j : ℕ)
          → l < k + length names
          → j < length raws
          → read y (l * length raws + j) ≡ entry calib l 0 raws j bs)
      → save_channels_of lib names x y (k * length raws) (length raws) s ≡ put_rows names k s
  unfolding save_channels_of write_signal
  save_channels_of-rows [] k x y s stamped shown = refl
  save_channels_of-rows (name ∷ names) k x y s stamped shown =
      let here =
        elements-row calib tick k 0 (k * length raws) raws bs y
          (λ j below. shown k j (omega arith) below) in
      let next : k * length raws + length raws ≡ (k + 1) * length raws =
        omega (arith, suc-mul k (length raws)) in
      rw stamped (
        rw here (
          rw next (
            >>=-nested (row calib tick k 0 raws bs) _ _ _ λ values.
              save_channels_of-rows names (k + 1) x y
                (lib.put name values (times calib tick 0 (length raws)) s).1 stamped
                (λ l j channel below. shown l j (omega arith) below))))

module _ ⦃m : Ieee⦄ (lib : MdsLib) where
  -- The same rows, for parts that are equal.
  pub rows_moved :
      (calib : List Float) (raws : List (List ℤ)) (names : List Text) {t t' : Dbl}
      {bs bs' : List Float} {from from' saved : lib.Session}
      → t ≡ t'
      → bs ≡ bs'
      → from ≡ from'
      → put_rows lib calib t raws bs names 0 from ≡ ok saved
      → put_rows lib calib t' raws bs' names 0 from' ≡ ok saved
  rows_moved calib raws names {t' = t'} {bs = bs} {bs' = bs'} {from = from} et eb es rows =
      sym (
        ap (λ x. put_rows lib calib x raws bs names 0 from) et
        ∙ ap (λ y. put_rows lib calib t' raws y names 0 from) eb
        ∙ ap (put_rows lib calib t' raws bs' names 0) es)
      ∙ rows

module _ ⦃m : Ieee⦄ (lib : MdsLib) {api : Rfm2g} {I : Type 0} (calc : Calc I) (o : Options)
    (calib : List Float) (tick : Dbl) where
  -- What the archive gets is what was measured: with `-q` and saving, when the cycles of a shot are
  -- as many as the samples of its arrays, they go right, and then `save_signal` makes these calls of
  -- the library in this order and no other: for each name of the list the row of its channel in the
  -- table of the shot, cycle by cycle, with the times of the cycles; the arrays are still in order. It
  -- wants 96 calibration factors and 96 channels in each cycle.
  pub save_signal-put_rows :
      (raws : List (List ℤ)) (s : Vs I) (d : Daq api I) (session : lib.Session)
      → o.acqonly ≡ true
      → o.saveall ≡ true
      → length calib ≡ chns
      → IsOpen (length raws) s d
      → HaveData raws
      → (d' : Daq api I) × (saved : lib.Session) × (cycles calc o calib tick (length raws) 0 raws d
          ≡ ok d')
        × (save_signal lib d'.timebase d'.signal_data (length raws) session ≡ ok saved)
        × (put_rows lib calib tick raws d.baseline signal_list 0 session ≡ ok saved)
        × IsOpen (length raws) s d'
  unfolding save_signal
  save_signal-put_rows raws s d session only saving factors ready full =
      let n = length raws in
      let (d', e, over) =
        cycles-IsOpen calc o calib tick n 0 raws s d only factors ready (omega arith) full in
      let table = λ (k j : ℕ) (channel : k < chns) (cycle : j < n).
        cycles-entry calc o calib tick n 0 k j raws d d' saving e (omega arith) channel cycle in
      let top : 0 * n ≡ 0 = omega arith in
      let stamped =
        elements-times calib tick 0 n d'.timebase (λ j below. (table 0 j (omega arith) below).1) in
      let rows =
        save_channels_of-rows lib calib tick raws d.baseline signal_list 0 d'.timebase
          d'.signal_data session stamped
          (λ l j channel below.
            let plain : 0 + j ≡ j = omega arith in
            ap (λ i. read d'.signal_data (l * n + i)) (sym plain) ∙ (table l j channel below).0) in
      let (saved, f) =
        save_signal_within lib d'.timebase d'.signal_data n session over.timebase
          over.signal_data in
      (d', saved, e, f, sym (rw top at rows) ∙ f, over)
