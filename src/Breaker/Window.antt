-- ===== src/Breaker/Window.antt =====
-- The sliding window of src/circuit-breaker.ts as the last results of a history.
use kinetex.Base.{
  ℕ, zero, suc, ◌+◌, ◌-◌, ◌≤◌, ◌<◌, ◌≡◌, refl, ap, ◌∙◌, Bool, true, false, List, [], ◌∷◌, ◌++◌,
  arith, ltb, if◌then◌else◌, length, drop, length-append, length-drop, dec_lt,
}
use kinetex.Breaker.State.{count_failures}
use kinetex.Breaker.{push_result}

-- The last `n` of a list.
abbrev pub take_last {ℓ} : {A : Type ℓ} → ℕ → List A → List A
take_last n xs = drop (length xs - n) xs

module _ {ℓ} {A : Type ℓ} where
  drop-append : (k : ℕ) (xs ys : List A) → k ≤ length xs → drop k (xs ++ ys) ≡ drop k xs ++ ys
  drop-append zero xs ys h = refl
  drop-append (suc k) [] ys h = absurd (omega arith)
  drop-append (suc k) (x ∷ xs) ys h = drop-append k xs ys (omega arith)

  drop-drop_one : (k : ℕ) (xs : List A) → drop 1 (drop k xs) ≡ drop (suc k) xs
  drop-drop_one zero xs = refl
  drop-drop_one (suc k) [] = refl
  drop-drop_one (suc k) (x ∷ xs) = drop-drop_one k xs

  length-take_last : (n : ℕ) (xs : List A) → n ≤ length xs → length (take_last n xs) ≡ n
  length-take_last n xs h = omega (arith, length-drop (length xs - n) xs)

lt→ltb : (a b : ℕ) → a < b → ltb a b ≡ true
lt→ltb a b h = ground arith

le→not-ltb : (a b : ℕ) → b ≤ a → ltb a b ≡ false
le→not-ltb a b h = ground arith

pub take_last-nil : (n : ℕ) → take_last {A = Bool} n [] ≡ []
take_last-nil n = drop-nil (0 - n)
  where
    drop-nil : (k : ℕ) → drop {A = Bool} k [] ≡ []
    drop-nil zero = refl
    drop-nil (suc k) = refl

-- One push, seen on the history with the new result at its end.
push_drop :
    (n l : ℕ) (xs : List Bool)
    → length xs ≡ suc l
    → (if ltb n (length (drop (l - n) xs)) then drop 1 (drop (l - n) xs) else drop (l - n) xs)
      ≡ take_last n xs
push_drop n l xs e =
    let fits : length (drop (l - n) xs) ≡ length xs - (l - n) = length-drop (l - n) xs in
    elim (dec_lt l n) [
      | yes short ↦
          rw (le→not-ltb n (length (drop (l - n) xs)) (omega arith))
            (ap (λ (k : ℕ). drop k xs) (omega arith))
      | no full ↦
          rw (lt→ltb n (length (drop (l - n) xs)) (omega arith))
            (drop-drop_one (l - n) xs ∙ ap (λ (k : ℕ). drop k xs) {x = suc (l - n)} (omega arith))
    ]

-- One push keeps the window the last `n` results of the history.
pub push_result-take_last :
    (n : ℕ) (r : Bool) (hist : List Bool)
    → push_result n r (take_last n hist) ≡ take_last n (hist ++ r ∷ [])
unfolding push_result
push_result-take_last n r hist =
    rw (← drop-append (length hist - n) hist (r ∷ []) (omega arith))
      (push_drop n (length hist) (hist ++ r ∷ []) (omega (arith, length-append hist (r ∷ []))))

count_failures-drop_one : (w : List Bool) → count_failures (drop 1 w) ≤ count_failures w
count_failures-drop_one [] = omega arith
count_failures-drop_one (true ∷ w) = omega arith
count_failures-drop_one (false ∷ w) = omega arith

count_failures-append_true : (w : List Bool) → count_failures (w ++ true ∷ []) ≡ count_failures w
count_failures-append_true [] = refl
count_failures-append_true (true ∷ w) = count_failures-append_true w
count_failures-append_true (false ∷ w) = ap (λ (k : ℕ). k + 1) (count_failures-append_true w)

pub push_success-le :
    (n : ℕ) (w : List Bool) → count_failures (push_result n true w) ≤ count_failures w
unfolding push_result
push_success-le n w =
    ground (arith, count_failures-append_true w, count_failures-drop_one (w ++ true ∷ []))
