-- ===== src/Base/Texts.antt =====
-- Texts as lists of UTF-16 code units, and the methods of texts that the source calls. The case
-- of letters is that of ASCII, which hosts, methods and attributes are written in.
use Prim.Native.Char.{code}
use Prim.Native.Nat.{ℕ, ◌+◌, ◌-◌}
use Prim.Native.String.{String}
use mathlib.Core.Path.{◌≡◌, refl}
use mathlib.Core.Bool.{Bool, true, false, ◌&&◌, ◌||◌}
use mathlib.Core.List.{List, [], ◌∷◌, map}
use native.Mathlib.Decide.{ℕ_discrete}
use native.Mathlib.Omega.{arith}
use kinetex.Base.Tests.{leb, ◌==◌, if◌then◌else◌}
use kinetex.Base.Lists.{length, drop}

abbrev pub Text : Type 0
Text = List ℕ

abbrev pub codes : String → Text
codes String.[] = []
codes (String.◌∷◌ c s) = code c ∷ codes s

-- `===` on texts.
abbrev pub same : Text → Text → Bool
same [] [] = true
same (a ∷ s) (b ∷ t) = a == b && same s t
same _ _ = false

unfoldable pub text_discrete : Discrete Text
text_discrete = hlevel ℕ_discrete

abbrev pub is_member : Text → List Text → Bool
is_member s [] = false
is_member s (t ∷ ts) = same s t || is_member s ts

abbrev to_lower : ℕ → ℕ
to_lower c = if leb b'A' c && leb c b'Z' then c + 32 else c

unfoldable pub to_lower_text : Text → Text
to_lower_text s = map to_lower s

abbrev to_upper : ℕ → ℕ
to_upper c = if leb b'a' c && leb c b'z' then c - 32 else c

unfoldable pub to_upper_text : Text → Text
to_upper_text s = map to_upper s

abbrev pub starts_with : Text → Text → Bool
starts_with s [] = true
starts_with [] (p ∷ ps) = false
starts_with (c ∷ s) (p ∷ ps) = c == p && starts_with s ps

abbrev pub ends_with : Text → Text → Bool
ends_with s suffix =
    leb (length suffix) (length s) && same (drop (length s - length suffix) s) suffix

pub same_iff : (s t : Text) → same s t ≡ true → s ≡ t
same_iff [] [] h = refl
same_iff (a ∷ s) [] h = ground arith
same_iff [] (b ∷ t) h = ground arith
same_iff (a ∷ s) (b ∷ t) h = ground (arith, same_iff s t)

pub same_self : (s : Text) → same s s ≡ true
same_self [] = refl
same_self (a ∷ s) = ground (arith, same_self s)
