-- ===== src/Daux/Signals/Saved.antt =====
-- `save_signal` of daux.c reads inside its arrays.
use daux4pcs2m.Base.{ℕ, ◌+◌, ◌*◌, ◌≤◌, List, [], ◌∷◌, ◌≡◌, refl, arith, length}
use daux4pcs2m.Base.Text.{Text}
use daux4pcs2m.Real.{Ieee, Float}
use daux4pcs2m.Memory.Result.{ok}
use daux4pcs2m.Memory.Buffer.{Buffer, HasSize}
use daux4pcs2m.Vs.Archive.Parts.{elements_within}
use daux4pcs2m.Mds.{MdsLib, write_signal}
use daux4pcs2m.Daux.Shot.{chns}
use daux4pcs2m.Daux.Signals.{signal_list, save_channels_of, save_signal}
use native.Mathlib.Nat.{suc-mul}

module _ ⦃m : Ieee⦄ (lib : MdsLib) where
  save_channels_of_within :
      (names : List Text) (x y : Buffer Float) (start n size : ℕ) (s : lib.Session)
      → HasSize n x
      → HasSize size y
      → start + length names * n ≤ size
      → (s' : lib.Session) × (save_channels_of lib names x y start n s ≡ ok s')
  unfolding save_channels_of write_signal
  save_channels_of_within [] x y start n size s hx hy room = (s, refl)
  save_channels_of_within (name ∷ names) x y start n size s hx hy room =
      let (xs, ex, _) = elements_within n 0 n x hx (omega arith) in
      let room' : start + n + length names * n ≤ size = omega (arith, suc-mul (length names) n) in
      let (ys, ey, _) = elements_within n start size y hy (omega arith) in
      let (s', e) =
        save_channels_of_within names x y (start + n) n size (lib.put name ys xs s).1 hx hy room' in
      (s', rw ex (rw ey e))

  pub save_signal_within :
      (x y : Buffer Float) (n : ℕ) (s : lib.Session)
      → HasSize n x
      → HasSize (chns * n) y
      → (s' : lib.Session) × (save_signal lib x y n s ≡ ok s')
  unfolding save_signal
  save_signal_within x y n s hx hy =
      save_channels_of_within signal_list x y 0 n (chns * n) s hx hy (omega arith)
