-- ===== src/Numbers.antt =====
-- Numbers of the language as the cache uses them: whole numbers, the infinities and NaN.
use kinetex.Base.{ℕ, ◌+◌, ◌-◌, ◌*◌, Bool, true, false, leb, ltb, if◌then◌else◌}

pub data ℤ : Type 0 where
  pos : ℕ → ℤ
  negsuc : ℕ → ℤ

abbrev sub_nat : ℕ → ℕ → ℤ
sub_nat m n = if leb n m then pos (m - n) else negsuc (n - m - 1)

infixl 60 ◌+ℤ◌
abbrev pub ◌+ℤ◌ : ℤ → ℤ → ℤ
pos a +ℤ pos b = pos (a + b)
pos a +ℤ negsuc b = sub_nat a (b + 1)
negsuc a +ℤ pos b = sub_nat b (a + 1)
negsuc a +ℤ negsuc b = negsuc (a + b + 1)

abbrev from_negated : ℕ → ℤ
from_negated a = sub_nat 0 a

abbrev pub opposite : ℤ → ℤ
opposite (pos a) = from_negated a
opposite (negsuc a) = pos (a + 1)

abbrev ltℤ : ℤ → ℤ → Bool
ltℤ (pos a) (pos b) = ltb a b
ltℤ (pos a) (negsuc b) = false
ltℤ (negsuc a) (pos b) = true
ltℤ (negsuc a) (negsuc b) = ltb b a

abbrev scaleℤ : ℕ → ℤ → ℤ
scaleℤ n (pos a) = pos (a * n)
scaleℤ n (negsuc a) = from_negated ((a + 1) * n)

pub data Number : Type 0 where
  nan : Number
  minus_infinity : Number
  finite : ℤ → Number
  infinity : Number

abbrev pub num : ℕ → Number
num n = finite (pos n)

abbrev pub add : Number → Number → Number
add (finite a) (finite b) = finite (a +ℤ b)
add (finite a) b = b
add infinity nan = nan
add infinity minus_infinity = nan
add infinity b = infinity
add minus_infinity nan = nan
add minus_infinity infinity = nan
add minus_infinity b = minus_infinity
add nan b = nan

abbrev pub negate : Number → Number
negate nan = nan
negate minus_infinity = infinity
negate (finite a) = finite (opposite a)
negate infinity = minus_infinity

abbrev pub sub : Number → Number → Number
sub a b = add a (negate b)

-- `a < b`
abbrev pub less : Number → Number → Bool
less (finite a) (finite b) = ltℤ a b
less (finite a) infinity = true
less minus_infinity (finite b) = true
less minus_infinity infinity = true
less a b = false

-- `a <= b`
abbrev pub at_most : Number → Number → Bool
at_most nan b = false
at_most a nan = false
at_most a b = if less b a then false else true

-- `Math.min` and `Math.max`
abbrev pub minimum : Number → Number → Number
minimum nan b = nan
minimum a nan = nan
minimum a b = if less b a then b else a

abbrev pub maximum : Number → Number → Number
maximum nan b = nan
maximum a nan = nan
maximum a b = if less a b then b else a

-- `a * n` for a positive n
abbrev pub scale : ℕ → Number → Number
scale n (finite a) = finite (scaleℤ n a)
scale n a = a

abbrev pub is_infinity : Number → Bool
is_infinity infinity = true
is_infinity a = false

abbrev pub is_nan : Number → Bool
is_nan nan = true
is_nan a = false
