-- ===== src/Daux/Calib/Sizes.antt =====
-- `readcalib` of daux.c keeps the size of the array of the factors.
use daux4pcs2m.Base.{ℕ, ◌+◌, List, [], ◌∷◌, Option, none, some, ◌≡◌, ap, Bool-cases, inl, inr}
use daux4pcs2m.Base.Text.{Text, Scan}
use daux4pcs2m.Memory.Result.{ok, >>=-eq-ok, ok-injective}
use daux4pcs2m.Memory.Buffer.{Buffer, HasSize, HasSize-write}
use daux4pcs2m.Daux.Calib.{is_skipped, after_last_space, put, data_line, read_factors, readcalib}
use mathlib.Core.Path.{subst}

module _ {F : Type 0} (scan : Scan F) where
  open scan use {scan_float}

  put-HasSize :
      (n : ℕ) (v : Option (F × Text)) (b d : Buffer F) (c : ℕ)
      → put scan v b c ≡ ok d
      → HasSize n b
      → HasSize n d
  put-HasSize n none b d c e h = subst (HasSize n) (ok-injective e) h
  put-HasSize n (some (v, s)) b d c e h = HasSize-write b n c v e h

  data_line-HasSize :
      (n : ℕ) (l : Option Text) (b d : Buffer F) (c : ℕ)
      → data_line scan l b c ≡ ok d
      → HasSize n b
      → HasSize n d
  data_line-HasSize n none b d c e h = cc
  data_line-HasSize n (some s) b d c e h = put-HasSize n (scan_float s) b d c e h

  read_factors-HasSize :
      (n : ℕ) (ls : List Text) (b d : Buffer F) (c k : ℕ)
      → read_factors scan ls b c ≡ ok (d, k)
      → HasSize n b
      → HasSize n d
  unfolding read_factors
  read_factors-HasSize n [] b d c k e h = subst (HasSize n) (ap (λ x. x.0) (ok-injective e)) h
  read_factors-HasSize n (l ∷ ls) b d c k e h = elim (Bool-cases (is_skipped l)) [
    | inl skipped ↦ read_factors-HasSize n ls b d c k (rw skipped at e) h
    | inr counted ↦
        let e' = rw counted at e in
        let (b', e1, f1) = >>=-eq-ok (data_line scan (after_last_space l) b c) _ e' in
        read_factors-HasSize n ls b' d (c + 1) k f1
          (data_line-HasSize n (after_last_space l) b b' c e1 h)
  ]

  pub readcalib-HasSize :
      (n : ℕ) (file : Option (List Text)) (b d : Buffer F) (k : ℕ)
      → readcalib scan file b ≡ ok (d, k)
      → HasSize n b
      → HasSize n d
  unfolding readcalib
  readcalib-HasSize n none b d k e h = cc
  readcalib-HasSize n (some ls) b d k e h = read_factors-HasSize n ls b d 0 k e h
