-- ===== src/Sse/Server/Decimal.antt =====
-- A natural number in decimal, as `${n}` writes it for safe whole numbers, and read back.
use Prim.Native.Nat.{◌/◌, ◌%◌}
use kinetex.Base.{
  ℕ, zero, suc, ◌+◌, ◌<◌, ◌≡◌, refl, true, [], ◌∷◌, inl, inr, arith, ltb, if◌then◌else◌, Bool-cases,
}
use kinetex.Sse.Lines.{Text, NoBreaks}
use kinetex.Sse.{to_number, is_number, all_digits}

-- On fuel; `n + 1` rounds are more than enough for `n`.
show_from : ℕ → ℕ → Text → Text
show_from zero n acc = acc
show_from (suc fuel) n acc =
    let rest = show_from fuel (n / 10) ((n % 10 + b'0') ∷ acc) in
    if ltb n 10 then (n + b'0') ∷ acc else rest

unfoldable pub show_number : ℕ → Text
unfolding show_from
show_number n = show_from (suc n) n []

to_number-show_from :
    (f n : ℕ) (acc : Text) → n < f → to_number 0 (show_from f n acc) ≡ to_number n acc
unfolding show_from to_number
to_number-show_from zero n acc h = elim h [ ]
to_number-show_from (suc f) n acc h = elim (Bool-cases (ltb n 10)) [
  | inl small ↦ rw small (ground arith)
  | inr large ↦ rw large (ground (arith, to_number-show_from f (n / 10) ((n % 10 + b'0') ∷ acc)))
]

-- The number is read back.
pub to_number-show_number : (n : ℕ) → to_number 0 (show_number n) ≡ n
unfolding show_number to_number
to_number-show_number n = to_number-show_from (suc n) n [] (omega arith)

is_number-show_from :
    (f n : ℕ) (acc : Text) → n < f → all_digits acc ≡ true → is_number (show_from f n acc) ≡ true
unfolding show_from
is_number-show_from zero n acc h d = elim h [ ]
is_number-show_from (suc f) n acc h d =
    ground (arith, is_number-show_from f (n / 10) ((n % 10 + b'0') ∷ acc))

pub is_number-show_number : (n : ℕ) → is_number (show_number n) ≡ true
unfolding show_number
is_number-show_number n = is_number-show_from (suc n) n [] (omega arith) refl

NoBreaks-all_digits : (t : Text) → all_digits t ≡ true → NoBreaks t
NoBreaks-all_digits [] d = tt
NoBreaks-all_digits (c ∷ t) d = ground (arith, NoBreaks-all_digits t)

NoBreaks-is_number : (t : Text) → is_number t ≡ true → NoBreaks t
NoBreaks-is_number [] d = tt
NoBreaks-is_number (c ∷ t) d = NoBreaks-all_digits (c ∷ t) d

pub NoBreaks-show_number : (n : ℕ) → NoBreaks (show_number n)
NoBreaks-show_number n = NoBreaks-is_number (show_number n) (is_number-show_number n)
