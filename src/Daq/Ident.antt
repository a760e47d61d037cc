-- ===== src/Daq/Ident.antt =====
-- `make_ao_ident` of daq_helper.h.
use daux4pcs2m.Base.{
  ℕ, zero, suc, ◌+◌, ◌-◌, ◌*◌, ◌/◌, ◌%◌, ◌^◌, ◌≤◌, List, [], ◌∷◌, ◌==◌, if◌then◌else◌, ltb,
  replicate, ◌≡◌, refl, arith, ap, lt→ltb,
}
use daux4pcs2m.Base.Int.{ℤ, pos, negsuc}

-- `(32768 / 100)`
abbrev pub mv100 : ℕ
mv100 = 32768 / 100

-- The conversion of an int that is not negative to a short.
unfoldable pub short_of : ℕ → ℤ
short_of n = let low = n % 2 ^ 16 in if ltb low (2 ^ 15) then pos low else negsuc (2 ^ 16 - 1 - low)

-- The loop over the channels from `ic` on.
unfoldable pub ident_values : ℕ → ℕ → ℕ → List ℤ
ident_values ao_ident ic zero = []
ident_values ao_ident ic (suc left) =
    short_of (ic * mv100 * ao_ident) ∷ ident_values ao_ident (ic + 1) left

-- For a count of channels and an identification that are not negative.
unfoldable pub make_ao_ident : ℕ → ℕ → List ℤ
make_ao_ident aochan ao_ident =
    let ids = ident_values ao_ident 0 aochan in
    if ao_ident == 0 then replicate aochan (pos 0) else ids

-- 100 mV more for each channel, as 327 units of the converter.
abbrev pub steps_from : ℕ → ℕ → List ℤ
steps_from ic zero = []
steps_from ic (suc left) = pos (ic * 327) ∷ steps_from (ic + 1) left

ident_values-steps : (ic left : ℕ) → ic + left ≤ 101 → ident_values 1 ic left ≡ steps_from ic left
unfolding ident_values short_of
ident_values-steps ic zero room = refl
ident_values-steps ic (suc left) room =
    let here : ic * mv100 * 1 % 2 ^ 16 ≡ ic * 327 = omega arith in
    rw here (
      rw (lt→ltb (ic * 327) (2 ^ 15) (omega arith))
        (ap (λ vs. pos (ic * 327) ∷ vs) (ident_values-steps (ic + 1) left (omega arith))))

-- Up to 101 channels can be told apart by their voltage: none of the numbers leaves the range of a
-- short.
pub make_ao_ident-steps : (aochan : ℕ) → aochan ≤ 101 → make_ao_ident aochan 1 ≡ steps_from 0 aochan
unfolding make_ao_ident
make_ao_ident-steps aochan few = ident_values-steps 0 aochan (omega arith)
