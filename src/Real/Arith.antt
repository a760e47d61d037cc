-- ===== src/Real/Arith.antt =====
-- The C types float and double, as the program uses them: an interface, since no floating-point
-- arithmetic is at hand to compute with. `Single` is float and `Double` is double; `widen` is the
-- promotion of a float operand beside a double one, `narrow` the conversion of an assignment back.
-- `⊕ ⊖ ⊗ ⊘ ≺ ≼ ≈` are `+ - * / < <= ==` on float, `⊞ ⊟ ⊠ ⧄ ◁ ⊴ ≐` those on double.
use daux4pcs2m.Base.{Bool, ℕ, suc, true, ◌&&◌, ◌≡◌, if◌then◌else◌, arith}
use daux4pcs2m.Base.Int.{ℤ, pos, negsuc}

-- The operators of one of the two types. A comparison with NaN is `false`.
pub record Arith (A : Type 0) : Type 0 where
  pub add : A → A → A
  pub sub : A → A → A
  pub mul : A → A → A
  pub div : A → A → A
  pub lt : A → A → Bool
  pub le : A → A → Bool
  pub eq : A → A → Bool

pub record Ieee : Type 1 where
  pub Single : Type 0
  pub Double : Type 0
  pub single : Arith Single
  pub double : Arith Double
  pub widen : Single → Double
  pub narrow : Double → Single
  -- the conversions from int and to int; `to_int` and `trunc` truncate towards zero
  pub of_int : ℤ → Single
  pub to_int : Single → ℤ
  pub trunc : Double → ℤ
  -- the literal m * 10 ^ -e
  pub lit : ℕ → ℕ → Double
  pub neg : Double → Double
  -- `fabs` of math.h
  pub fabs : Double → Double

module _ ⦃m : Ieee⦄ where
  infixl 65 ◌⊕◌ ◌⊖◌ ◌⊞◌ ◌⊟◌
  infixl 70 ◌⊗◌ ◌⊘◌ ◌⊠◌ ◌⧄◌
  infix 50 ◌≺◌ ◌≼◌ ◌≈◌ ◌◁◌ ◌⊴◌ ◌≐◌
  abbrev pub Float : Type 0
  Float = m.Single

  abbrev pub Dbl : Type 0
  Dbl = m.Double

  abbrev pub ◌⊕◌ : Float → Float → Float
  x ⊕ y = m.single.add x y

  abbrev pub ◌⊖◌ : Float → Float → Float
  x ⊖ y = m.single.sub x y

  abbrev pub ◌⊗◌ : Float → Float → Float
  x ⊗ y = m.single.mul x y

  abbrev pub ◌⊘◌ : Float → Float → Float
  x ⊘ y = m.single.div x y

  abbrev pub ◌≺◌ : Float → Float → Bool
  x ≺ y = m.single.lt x y

  abbrev pub ◌≼◌ : Float → Float → Bool
  x ≼ y = m.single.le x y

  abbrev pub ◌≈◌ : Float → Float → Bool
  x ≈ y = m.single.eq x y

  abbrev pub ◌⊞◌ : Dbl → Dbl → Dbl
  x ⊞ y = m.double.add x y

  abbrev pub ◌⊟◌ : Dbl → Dbl → Dbl
  x ⊟ y = m.double.sub x y

  abbrev pub ◌⊠◌ : Dbl → Dbl → Dbl
  x ⊠ y = m.double.mul x y

  abbrev pub ◌⧄◌ : Dbl → Dbl → Dbl
  x ⧄ y = m.double.div x y

  abbrev pub ◌◁◌ : Dbl → Dbl → Bool
  x ◁ y = m.double.lt x y

  abbrev pub ◌⊴◌ : Dbl → Dbl → Bool
  x ⊴ y = m.double.le x y

  abbrev pub ◌≐◌ : Dbl → Dbl → Bool
  x ≐ y = m.double.eq x y

  abbrev pub nought : Float
  nought = m.of_int (pos 0)

  -- `x < 1.0e-35 && x > -1.0e-35`, the range that the filters round to zero
  abbrev pub tiny : Float → Bool
  tiny x = m.widen x ◁ m.lit 1 35 && m.neg (m.lit 1 35) ◁ m.widen x

  -- The conversion of an int to a double, which is exact.
  abbrev pub double_of : ℤ → m.Double
  double_of (pos n) = m.lit n 0
  double_of (negsuc n) = m.neg (m.lit (suc n) 0)

  -- The literal 0.0, assigned.
  abbrev pub zero_lit : Float
  zero_lit = m.narrow (m.lit 0 0)

  -- `if (x < 1.0e-35 && x > -1.0e-35) x = 0.0;`, which both controllers do to their outputs.
  unfoldable pub flush : Float → Float
  flush x = if tiny x then zero_lit else x

  abbrev pub IsFlushed : Float → Type 0
  IsFlushed x = tiny x ≡ true → x ≡ zero_lit

  pub flush-IsFlushed : (x : Float) → IsFlushed (flush x)
  unfolding flush
  flush-IsFlushed x = ground arith

-- What the proofs use of IEEE arithmetic: zero is equal to itself.
pub record IsNormal (m : Ieee) : Type 0 where
  pub nought_eq : m.single.eq (m.of_int (pos 0)) (m.of_int (pos 0)) ≡ true
