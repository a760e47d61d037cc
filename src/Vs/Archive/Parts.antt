-- ===== src/Vs/Archive/Parts.antt =====
-- The elements that a call of `write_signal` reads.
use daux4pcs2m.Base.{
  ℕ, zero, suc, ◌+◌, ◌≤◌, ◌<◌, List, [], ◌∷◌, ◌≡◌, refl, ap, arith, length, ltb, Bool-cases, inl,
  inr,
}
use daux4pcs2m.Memory.Result.{ok, err, out_of_bounds}
use daux4pcs2m.Memory.Buffer.{Buffer, HasSize, read_within, read_beyond}
use daux4pcs2m.Vs.Archive.{elements}

module _ {A : Type 0} where
  -- Inside an array all elements can be read, and past its end some cannot.
  pub elements_within :
      (n i l : ℕ) (b : Buffer A)
      → HasSize l b
      → i + n ≤ l
      → (xs : List A) × (elements n i b ≡ ok xs) × (length xs ≡ n)
  unfolding elements
  elements_within zero i l b size room = ([], refl, refl)
  elements_within (suc n) i l b size room =
      let (x, e) = read_within b l i size (omega arith) in
      let (xs, f, count) = elements_within n (i + 1) l b size (omega arith) in
      (x ∷ xs, rw e (rw f), ap suc count)

  pub elements_beyond :
      (n i l : ℕ) (b : Buffer A)
      → HasSize l b
      → i ≤ l
      → l < i + n
      → elements n i b ≡ err out_of_bounds
  unfolding elements
  elements_beyond zero i l b size low high = absurd (omega arith)
  elements_beyond (suc n) i l b size low high = elim (Bool-cases (ltb i l)) [
    | inl below ↦
        let inside : i < l = ground arith in
        let (x, e) = read_within b l i size inside in
        rw e (rw (elements_beyond n (i + 1) l b size (omega arith) (omega arith)))
    | inr above ↦ rw (read_beyond b l i size (ground arith))
  ]
