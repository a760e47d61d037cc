-- ===== src/Real/Rational.antt =====
-- A value of the interface `Ieee` that computes: fractions, with `nan` for a division by zero. The
-- tests and the examples run on it; both float types are this one.
use daux4pcs2m.Base.{ℕ, zero, suc, ◌+◌, ◌*◌, ◌/◌, ◌^◌, Bool, false, ◌==◌, refl}
use daux4pcs2m.Base.Int.{ℤ, pos, negsuc, ◌+ℤ◌, ◌-ℤ◌, ◌*ℤ◌, sub_ℕ, ltb_ℤ, leb_ℤ, pos_part, neg_part}
use daux4pcs2m.Real.Arith.{Arith, Ieee, IsNormal}

-- `frac n d` is n / (d + 1).
pub data Rational : Type 0 where
  nan : Rational
  frac : ℤ → ℕ → Rational

abbrev over : ℤ → ℕ → Rational
over n zero = nan
over n (suc d) = frac n d

abbrev add : Rational → Rational → Rational
add (frac a b) (frac c d) = over (a *ℤ pos (suc d) +ℤ c *ℤ pos (suc b)) (suc b * suc d)
add _ _ = nan

abbrev opposite : Rational → Rational
opposite (frac a b) = frac (pos 0 -ℤ a) b
opposite nan = nan

abbrev mul : Rational → Rational → Rational
mul (frac a b) (frac c d) = over (a *ℤ c) (suc b * suc d)
mul _ _ = nan

abbrev inverse : Rational → Rational
inverse nan = nan
inverse (frac (pos a) b) = over (pos (suc b)) a
inverse (frac (negsuc a) b) = over (negsuc b) (suc a)

abbrev compared : (ℤ → ℤ → Bool) → Rational → Rational → Bool
compared f (frac a b) (frac c d) = f (a *ℤ pos (suc d)) (c *ℤ pos (suc b))
compared f _ _ = false

abbrev equal_ℤ : ℤ → ℤ → Bool
equal_ℤ a b = pos_part a + neg_part b == pos_part b + neg_part a

abbrev truncated : Rational → ℤ
truncated nan = pos 0
truncated (frac (pos a) b) = pos (a / suc b)
truncated (frac (negsuc a) b) = sub_ℕ 0 (suc a / suc b)

abbrev magnitude : Rational → Rational
magnitude nan = nan
magnitude (frac (pos a) b) = frac (pos a) b
magnitude (frac (negsuc a) b) = frac (pos (suc a)) b

abbrev rational_arith : Arith Rational
rational_arith = record {
  add = add;
  sub = λ x y. add x (opposite y);
  mul = mul;
  div = λ x y. mul x (inverse y);
  lt = compared ltb_ℤ;
  le = compared leb_ℤ;
  eq = compared equal_ℤ;
}

instance abbrev pub rational : Ieee
rational = record {
  Single = Rational;
  Double = Rational;
  single = rational_arith;
  double = rational_arith;
  widen = λ x. x;
  narrow = λ x. x;
  of_int = λ n. frac n 0;
  to_int = truncated;
  trunc = truncated;
  lit = λ n e. over (pos n) (10 ^ e);
  neg = opposite;
  fabs = magnitude;
}

pub rational-IsNormal : IsNormal rational
rational-IsNormal = record { nought_eq = refl }
