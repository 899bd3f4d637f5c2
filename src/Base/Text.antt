-- ===== src/Base/Text.antt =====
-- Texts tested character by character, for the regular expressions of the source.
use Prim.Native.Nat.{ℕ, ◌+◌, ◌-◌, ◌/◌, ◌%◌}
use Prim.Native.Char.{code}
use Prim.Native.String.{String}
use mathlib.Core.Bool.{Bool, not, ◌&&◌, ◌||◌}
use mathlib.Core.List.{List, [], ◌∷◌}
use wp_auto.Base.Tests.{ltb, leb, ◌==◌, nat_eq, if◌then◌else◌}
use wp_auto.Base.Lists.{length, all, any}

-- The code points of a text.
abbrev pub codes : String → List ℕ
codes String.[] = []
codes (String.◌∷◌ c s) = code c ∷ codes s

abbrev pub is_upper : ℕ → Bool
is_upper c = leb b'A' c && leb c b'Z'

abbrev pub is_lower : ℕ → Bool
is_lower c = leb b'a' c && leb c b'z'

abbrev pub is_digit : ℕ → Bool
is_digit c = leb b'0' c && leb c b'9'

-- [A-Za-z0-9_-]
abbrev pub is_word : ℕ → Bool
is_word c = is_upper c || (is_lower c || (is_digit c || (c == b'_' || c == b'-')))

-- /^[class]{least,most}$/u
abbrev pub matches : (ℕ → Bool) → ℕ → ℕ → String → Bool
matches in_class least most s =
    let cs = codes s in leb least (length cs) && (leb (length cs) most && all in_class cs)

-- /^[a-z][a-z0-9_.-]{2,63}$/u
abbrev pub is_code : String → Bool
is_code String.[] = Bool.false
is_code (String.◌∷◌ c s) =
    is_lower (code c)
    && matches (λ d. is_lower d || (is_digit d || (d == b'_' || (d == b'.' || d == b'-')))) 2 63 s

-- The UTF-16 units of a text.
abbrev pub utf16 : List ℕ → List ℕ
utf16 [] = []
utf16 (c ∷ cs) =
    let rest = utf16 cs in
    if ltb c 0x10000
    then c ∷ rest
    else (0xd800 + (c - 0x10000) / 0x400) ∷ (0xdc00 + c % 0x400) ∷ rest

-- The `length` of a text in the source counts UTF-16 units.
abbrev pub utf16_units : List ℕ → ℕ
utf16_units [] = 0
utf16_units (c ∷ cs) = (if ltb c 65536 then 1 else 2) + utf16_units cs

abbrev pub text_length : String → ℕ
text_length s = utf16_units (codes s)

-- startsWith('/') && !startsWith('//')
abbrev rooted : List ℕ → Bool
rooted [] = Bool.false
rooted (c ∷ []) = c == b'/'
rooted (c ∷ d ∷ cs) = c == b'/' && not (d == b'/')

-- A path on the same origin: no authority, no backslash, no fragment, at most 2048 units.
abbrev pub is_return_path : String → Bool
is_return_path s =
    let cs = codes s in
    leb (utf16_units cs) 2048
    && (rooted cs && (not (any (λ c. c == 0x5c) cs) && not (any (λ c. c == b'#') cs)))
