-- ===== src/CookieParser/OneCookie.antt =====
-- splitSetCookieHeaders of src/cookie-parser.ts on a header of one cookie.
use kinetex.Base.{
  ℕ, ◌≡◌, refl, subst, sym, ap, ◌∙◌, Bool, true, false, not, ◌&&◌, ◌||◌, List, [], ◌∷◌, ◌++◌, Text,
  arith, ◌==◌, inl, inr, Bool-cases, if◌then◌else◌,
}
use kinetex.Strings.{trim, trim_start, trim_end, is_space, cons_trimmed}
use kinetex.CookieParser.Splitting.{
  Splitter, init, push, put_blank, put_plain, next_is, put_unquoted, read_char, split_from,
  commit_cookie, add_cookie, split_set_cookie_headers, comma, quote, backslash, is_blank,
  is_blank_text,
}

-- No comma, no quote mark and no backslash.
abbrev pub is_simple : Text → Bool
is_simple [] = true
is_simple (c ∷ s) = not (c == comma) && not (c == quote) && not (c == backslash) && is_simple s

abbrev pub has_equals : Text → Bool
has_equals [] = false
has_equals (c ∷ s) = c == b'=' || has_equals s

append_one : (b : Text) (c : ℕ) (s : Text) → (b ++ c ∷ []) ++ s ≡ b ++ c ∷ s
append_one [] c s = refl
append_one (x ∷ b) c s = ap (λ r. x ∷ r) (append_one b c s)

cons_trimmed_ne : (c : ℕ) (s : Text) → is_space c ≡ false → is_blank_text (cons_trimmed c s) ≡ false
cons_trimmed_ne c [] h = rw h
cons_trimmed_ne c (d ∷ s) h = refl

-- A text that is trimmed to nothing is white space.
trim_start-blank : (b s : Text) → is_blank_text (trim b) ≡ true → trim_start (b ++ s) ≡ trim_start s
unfolding trim trim_start trim_end
trim_start-blank [] s h = refl
trim_start-blank (c ∷ b) s h = elim (Bool-cases (is_space c)) [
  | inl e ↦ rw e (
      trim_start-blank b s
        (subst (λ r. is_blank_text (trim_end (if r then trim_start b else c ∷ b)) ≡ true) e h))
  | inr e ↦ absurd (
      ground (
        arith,
        cons_trimmed_ne c (trim_end b) e,
        subst (λ r. is_blank_text (trim_end (if r then trim_start b else c ∷ b)) ≡ true) e h,
      ))
]

blank-space : (c : ℕ) → is_blank c ≡ true → is_space c ≡ true
blank-space c h = ground (arith, h)

trim_start-space : (c : ℕ) (s : Text) → is_space c ≡ true → trim_start (c ∷ s) ≡ trim_start s
unfolding trim_start
trim_start-space c s h = rw h

trim-blank :
    (b s : Text) (c : ℕ)
    → is_blank_text (trim b) ≡ true
    → is_blank c ≡ true
    → trim (b ++ c ∷ s) ≡ trim (b ++ s)
unfolding trim
trim-blank b s c h e = ap trim_end (
    trim_start-blank b (c ∷ s) h
    ∙ trim_start-space c s (blank-space c e)
    ∙ sym (trim_start-blank b s h))

-- A splitter outside quotes.
record Open (p : Splitter) : Type 0 where
  pub cookies : p.cookies ≡ []
  pub unquoted : p.in_quoted_value ≡ false
  pub unescaped : p.escaped ≡ false
  pub settled : p.skipping ≡ false

-- What a character does: the text to come, trimmed with what is held, stays the same.
record Steps (c : ℕ) (s : Text) (p q : Splitter) : Type 0 where
  pub outside : Open q
  pub same_text : trim (q.buffer ++ s) ≡ trim (p.buffer ++ c ∷ s)
  pub complete :
      ((c == b'=') || (p.name_complete && p.value_complete)) ≡ true
      → (q.name_complete && q.value_complete) ≡ true

push-Steps :
    (c : ℕ) (s : Text) (p q : Splitter)
    → Open q
    → q.buffer ≡ p.buffer
    → (((c == b'=') || (p.name_complete && p.value_complete)) ≡ true
        → (q.name_complete && q.value_complete) ≡ true)
    → Steps c s p (push c q)
push-Steps c s p q o b d = record {
  outside = record {
    cookies = o.cookies;
    unquoted = o.unquoted;
    unescaped = o.unescaped;
    settled = o.settled;
  };
  same_text = ap trim (append_one q.buffer c s) ∙ ap (λ x. trim (x ++ c ∷ s)) b;
  complete = d;
}

put_blank-Steps :
    (c : ℕ) (s : Text) (p q : Splitter)
    → is_blank c ≡ true
    → Open q
    → q.buffer ≡ p.buffer
    → (((c == b'=') || (p.name_complete && p.value_complete)) ≡ true
        → (q.name_complete && q.value_complete) ≡ true)
    → Steps c s p (put_blank c q)
unfolding put_blank
put_blank-Steps c s p q e o b d = elim (Bool-cases (is_blank_text (trim q.buffer))) [
  | inl h ↦ rw h (record {
    outside = o;
    same_text = sym (trim-blank q.buffer s c h e) ∙ ap (λ x. trim (x ++ c ∷ s)) b;
    complete = d;
  })
  | inr h ↦ rw h (push-Steps c s p q o b d)
]

either :
    (c : ℕ) (s : Text) (p : Splitter) (b : Bool) (x y : Splitter)
    → (b ≡ true → Steps c s p x)
    → (b ≡ false → Steps c s p y)
    → Steps c s p (if b then x else y)
either c s p true x y f g = f refl
either c s p false x y f g = g refl

-- The splitter before a plain character is put in.
abbrev marked : Bool → Splitter → Splitter
marked b p = if b then record p { value_complete = true } else p

marked-Open : (b : Bool) (p : Splitter) → Open p → Open (marked b p)
marked-Open true p o = record {
  cookies = o.cookies;
  unquoted = o.unquoted;
  unescaped = o.unescaped;
  settled = o.settled;
}
marked-Open false p o = o

marked-buffer : (b : Bool) (p : Splitter) → (marked b p).buffer ≡ p.buffer
marked-buffer true p = refl
marked-buffer false p = refl

marked_complete :
    (p : Splitter) (equals semicolon other : Bool)
    → (equals && not p.name_complete) ≡ false
    → semicolon ≡ false
    → other ≡ false
    → (equals || (p.name_complete && p.value_complete)) ≡ true
    → ((marked
          (p.name_complete && not p.value_complete && not semicolon && not other)
          p).name_complete
        && (marked
            (p.name_complete && not p.value_complete && not semicolon && not other)
            p).value_complete)
      ≡ true
marked_complete p equals semicolon other a k m h = ground (arith, a, k, m, h)

put_plain-Steps :
    (c : ℕ) (s : Text) (p : Splitter)
    → Open p
    → (c == comma) ≡ false
    → (c == b';') ≡ false
    → (c == b'=' && not p.name_complete) ≡ false
    → Steps c s p (put_plain c p)
put_plain-Steps c s p o m k e =
    let b = p.name_complete && not p.value_complete && not (c == b';') && not (c == comma) in
    let d = marked_complete p (c == b'=') (c == b';') (c == comma) e k m in
    either c s p (is_blank c) (put_blank c (marked b p)) (push c (marked b p))
      (λ h. put_blank-Steps c s p (marked b p) h (marked-Open b p o) (marked-buffer b p) d)
      (λ h. push-Steps c s p (marked b p) (marked-Open b p o) (marked-buffer b p) d)

put_unquoted-Steps :
    (c : ℕ) (s : Text) (p : Splitter)
    → Open p
    → (c == comma) ≡ false
    → Steps c s p (put_unquoted c s p)
put_unquoted-Steps c s p o m =
    let named : Splitter = record p { name_complete = true } in
    let both : Splitter = record p { name_complete = true; value_complete = true } in
    let open_named : Open named = record {
      cookies = o.cookies;
      unquoted = o.unquoted;
      unescaped = o.unescaped;
      settled = o.settled;
    } in
    let open_both : Open both = record {
      cookies = o.cookies;
      unquoted = o.unquoted;
      unescaped = o.unescaped;
      settled = o.settled;
    } in
    either c s p (c == comma && not p.in_quoted_value && p.name_complete) _ _
      (λ h. absurd (ground (arith, h, m)))
      (λ _.
        either c s p (c == b';') _ _
          (λ h. push-Steps c s p named open_named refl (λ d. ground (arith, h, d)))
          (λ k.
            either c s p (c == b'=' && not p.name_complete) _ _
              (λ h. push-Steps c s p both open_both refl (λ _. refl))
              (λ h. put_plain-Steps c s p o m k h)))

read_char-Steps :
    (c : ℕ) (s : Text) (p : Splitter)
    → Open p
    → (c == comma) ≡ false
    → (c == quote) ≡ false
    → (c == backslash) ≡ false
    → Steps c s p (read_char c s p)
read_char-Steps c s p o m q b =
    let p' : Splitter = record p { skipping = false } in
    let o' : Open p' = record {
      cookies = o.cookies;
      unquoted = o.unquoted;
      unescaped = o.unescaped;
      settled = refl;
    } in
    either c s p (p.skipping && is_space c) _ _ (λ h. absurd (ground (arith, h, o.settled)))
      (λ _.
        either c s p p.escaped _ _ (λ h. absurd (ground (arith, h, o.unescaped)))
          (λ _.
            either c s p
              (c == backslash && (p.in_quoted_value || next_is quote s || next_is backslash s)) _ _
              (λ h. absurd (ground (arith, h, b)))
              (λ _.
                either c s p (c == quote) _ _ (λ h. absurd (ground (arith, h, q)))
                  (λ _.
                    either c s p p.in_quoted_value _ _ (λ h. absurd (ground (arith, h, o.unquoted)))
                      (λ _.
                        let t = put_unquoted-Steps c s p' o' m in
                        record {
                          outside = t.outside;
                          same_text = t.same_text;
                          complete = t.complete;
                        })))))

-- Where the loop ends.
record Ends (s : Text) (p q : Splitter) : Type 0 where
  pub outside : Open q
  pub same_text : trim q.buffer ≡ trim (p.buffer ++ s)
  pub complete :
      (has_equals s || (p.name_complete && p.value_complete)) ≡ true
      → (q.name_complete && q.value_complete) ≡ true

append_nil : (b : Text) → b ++ [] ≡ b
append_nil [] = refl
append_nil (c ∷ b) = ap (λ r. c ∷ r) (append_nil b)

carry : (a b m n : Bool) → ((a || m) ≡ true → n ≡ true) → ((a || b) || m) ≡ true → (b || n) ≡ true
carry true b m n f h = ground (arith, f refl)
carry false true m n f h = refl
carry false false m n f h = f h

split_from-Ends :
    (s : Text) (p : Splitter) → Open p → is_simple s ≡ true → Ends s p (split_from s p)
unfolding split_from
split_from-Ends [] p o h = record {
  outside = o;
  same_text = ap trim (sym (append_nil p.buffer));
  complete = λ d. d;
}
split_from-Ends (c ∷ s) p o h =
    let t = read_char-Steps c s p o (ground (arith, h)) (ground (arith, h)) (ground (arith, h)) in
    let q = read_char c s p in
    let r = split_from-Ends s q t.outside (ground (arith, h)) in
    record {
      outside = r.outside;
      same_text = r.same_text ∙ t.same_text;
      complete = λ d. r.complete (
          carry (c == b'=') (has_equals s) (p.name_complete && p.value_complete)
            (q.name_complete && q.value_complete) t.complete d);
    }

space-equals : (c : ℕ) → is_space c ≡ true → (c == b'=') ≡ false
space-equals c h = ground (arith, h)

trim_start-equals : (s : Text) → has_equals s ≡ true → is_blank_text (trim_start s) ≡ false
unfolding trim_start
trim_start-equals [] h = ground arith
trim_start-equals (c ∷ s) h = elim (Bool-cases (is_space c)) [
  | inl e ↦ rw e (trim_start-equals s (ground (arith, h, space-equals c e)))
  | inr e ↦ rw e
]

add_cookie_ne : (t : Text) (xs : List Text) → is_blank_text t ≡ false → add_cookie t xs ≡ t ∷ xs
add_cookie_ne [] xs h = ground arith
add_cookie_ne (c ∷ t) xs h = refl

trim-equals : (s : Text) → has_equals s ≡ true → is_blank_text (trim s) ≡ false
unfolding trim_start
trim-equals s h = elim (Bool-cases (is_blank_text (trim s))) [
  | inr e ↦ e
  | inl e ↦ absurd (
      ground (
        arith,
        trim_start-equals s h,
        ap is_blank_text (ap trim_start (sym (append_nil s)) ∙ trim_start-blank s [] e),
      ))
]

-- A header that has an equals sign and no comma, quote mark or backslash is one cookie, given back
-- without the white space around it.
pub split_one_cookie :
    (raw : Text)
    → is_simple raw ≡ true
    → has_equals raw ≡ true
    → split_set_cookie_headers raw ≡ trim raw ∷ []
unfolding split_set_cookie_headers commit_cookie
split_one_cookie raw h e =
    let r =
      split_from-Ends raw init
        (record { cookies = refl; unquoted = refl; unescaped = refl; settled = refl }) h in
    rw (
      r.complete (ground (arith, e)),
      r.same_text,
      r.outside.cookies,
      add_cookie_ne (trim raw) [] (trim-equals raw e),
    )
