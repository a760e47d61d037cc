-- ===== src/Daux/Shot/Columns.antt =====
-- The table of a shot in daux.c, with a row for a channel and a column for a cycle, and the column
-- that `run` stores.
use daux4pcs2m.Base.{
  ℕ, zero, suc, ◌+◌, ◌*◌, ◌%◌, ◌≤◌, ◌<◌, List, [], ◌∷◌, ◌≡◌, ◌≢◌, refl, arith, ltb, ◌==◌,
  Bool-cases, inl, inr, ap, sym, ◌∙◌, if◌then◌else◌,
}
use daux4pcs2m.Base.Int.{ℤ}
use daux4pcs2m.Real.{Ieee, Float, ◌⊗◌, ◌⊕◌}
use daux4pcs2m.Memory.Result.{Result, ok, err, out_of_bounds, ◌>>=◌, >>=-eq-ok, ok-injective}
use daux4pcs2m.Memory.Buffer.{Buffer, read, write, read_list, read-write, read-write_ne}
use daux4pcs2m.Daux.Shot.{collect_baseline, save_channels, ncbl, bits_to_raw}
use native.Mathlib.Nat.{suc-mul, mul-add-mod_self_right, mod-eq_of_lt, mul-le-mul_right}

-- Two columns of a table have no element in common.

pub columns_apart : (k l n c e : ℕ) → c < n → e < n → c ≢ e → k * n + c ≢ l * n + e
columns_apart k l n c e left right other same =
    let mod_c : (k * n + c) % n ≡ c = mul-add-mod_self_right k n c ∙ mod-eq_of_lt left in
    let mod_e : (l * n + e) % n ≡ e = mul-add-mod_self_right l n e ∙ mod-eq_of_lt right in
    other (sym mod_c ∙ ap (λ x. x % n) same ∙ mod_e)

channels_apart : (k l n c : ℕ) → k < l → c < n → l * n + c ≢ k * n + c
channels_apart k l n c before below same =
    absurd (omega (arith, suc-mul k n, mul-le-mul_right n before))

module _ ⦃m : Ieee⦄ (calib : List Float) where
  -- The value of a channel, for the data of a cycle and the base line.
  abbrev pub sample : List ℤ → List Float → ℕ → Result Float
  sample raw bs k = do
    r ← read_list raw k
    c ← read_list calib k
    b ← read_list bs k
    ok (bits_to_raw (m.of_int r ⊗ c) ⊕ b)

  -- The base line of a cycle: it is collected in the first 200 ones.
  abbrev pub collected : ℕ → List ℤ → List Float → List Float
  collected sss raw bs = if ltb sss ncbl then collect_baseline sss ncbl raw bs else bs

  -- The table: what the channel `k` holds for the cycle `j` of those that begin with `sss`.
  abbrev pub entry : ℕ → ℕ → List (List ℤ) → ℕ → List Float → Result Float
  entry k sss [] j bs = err out_of_bounds
  entry k sss (raw ∷ raws) zero bs = sample raw (collected sss raw bs) k
  entry k sss (raw ∷ raws) (suc j) bs = entry k (sss + 1) raws j (collected sss raw bs)

  save_channels-step :
      (left idx start n sss : ℕ) (raw : List ℤ) (bs : List Float) (y y' : Buffer Float)
      → save_channels (suc left) idx start n sss calib raw bs y ≡ ok y'
      → (v : Float) × (y1 : Buffer Float) × (sample raw bs idx ≡ ok v)
        × (write y (start + sss) v ≡ ok y1)
        × (save_channels left (idx + 1) (start + n) n sss calib raw bs y1 ≡ ok y')
  unfolding save_channels
  save_channels-step left idx start n sss raw bs y y' e =
      let write_here : Float → Result (Buffer Float) = λ v. write y (start + sss) v >>= λ y1.
      save_channels left (idx + 1) (start + n) n sss calib raw bs y1 in
      let (r, er, e1) =
        >>=-eq-ok (read_list raw idx)
          (λ r. read_list calib idx >>= λ c.
            read_list bs idx >>= λ b. write_here (bits_to_raw (m.of_int r ⊗ c) ⊕ b))
          e in
      let (c, ec, e2) =
        >>=-eq-ok (read_list calib idx)
          (λ c. read_list bs idx >>= λ b. write_here (bits_to_raw (m.of_int r ⊗ c) ⊕ b)) e1 in
      let (b, eb, e3) =
        >>=-eq-ok (read_list bs idx) (λ b. write_here (bits_to_raw (m.of_int r ⊗ c) ⊕ b)) e2 in
      let v = bits_to_raw (m.of_int r ⊗ c) ⊕ b in
      let (y1, ew, later) =
        >>=-eq-ok (write y (start + sss) v)
          (λ y1. save_channels left (idx + 1) (start + n) n sss calib raw bs y1) e3 in
      (v, y1, rw er (rw ec (rw eb refl)), ew, later)

  -- What is no element of these channels in this column is kept.
  pub save_channels-kept :
      (left idx n sss p : ℕ) (raw : List ℤ) (bs : List Float) (y y' : Buffer Float)
      → save_channels left idx (idx * n) n sss calib raw bs y ≡ ok y'
      → ((l : ℕ) → idx ≤ l → l * n + sss ≢ p)
      → read y' p ≡ read y p
  unfolding save_channels
  save_channels-kept zero idx n sss p raw bs y y' e away = ap (λ b. read b p) (sym (ok-injective e))
  save_channels-kept (suc left) idx n sss p raw bs y y' e away =
      let (v, y1, ev, ew, later) = save_channels-step left idx (idx * n) n sss raw bs y y' e in
      let next : idx * n + n ≡ (idx + 1) * n = omega (arith, suc-mul idx n) in
      save_channels-kept left (idx + 1) n sss p raw bs y1 y' (rw next at later)
        (λ l above. away l (omega arith))
      ∙ read-write_ne y (idx * n + sss) p v ew (away idx (omega arith))

  pub save_channels-sample :
      (left idx n sss k : ℕ) (raw : List ℤ) (bs : List Float) (y y' : Buffer Float)
      → save_channels left idx (idx * n) n sss calib raw bs y ≡ ok y'
      → sss < n
      → idx ≤ k
      → k < idx + left
      → read y' (k * n + sss) ≡ sample raw bs k
  save_channels-sample zero idx n sss k raw bs y y' e below from to = absurd (omega arith)
  save_channels-sample (suc left) idx n sss k raw bs y y' e below from to =
      let (v, y1, ev, ew, later) = save_channels-step left idx (idx * n) n sss raw bs y y' e in
      let next : idx * n + n ≡ (idx + 1) * n = omega (arith, suc-mul idx n) in
      let rest : save_channels left (idx + 1) ((idx + 1) * n) n sss calib raw bs y1 ≡ ok y' =
        rw next at later in
      elim (Bool-cases (k == idx)) [
        | inl this ↦
            let at : k ≡ idx = ground arith in
            rw at (
              save_channels-kept left (idx + 1) n sss (idx * n + sss) raw bs y1 y' rest
                (λ l above. channels_apart idx l n sss (omega arith) below)
              ∙ read-write y (idx * n + sss) v ew
              ∙ sym ev)
        | inr other ↦
            save_channels-sample left (idx + 1) n sss k raw bs y1 y' rest below (ground arith)
              (omega arith)
      ]
