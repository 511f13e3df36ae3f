-- ===== src/Base/Text.antt =====
-- Texts as the list of their code points, for code that walks them.
use Prim.Native.Nat.{ℕ, zero, suc, ◌+◌, ◌-◌, ◌/◌, ◌%◌}
use Prim.Native.Char.{Char, code}
use Prim.Native.String.{String}
use mathlib.Core.Bool.{Bool, true, false, ◌&&◌, ◌||◌}
use mathlib.Core.List.{List, [], ◌∷◌}
use voice_order_backend.Base.Tests.{leb, ◌==◌, if◌then◌else◌}

-- The code points of a text.
abbrev pub codes : String → List ℕ
codes String.[] = []
codes (String.◌∷◌ c s) = code c ∷ codes s

-- The UTF-16 code units of a text, which are what the source's `length` counts.
abbrev pub utf16 : String → List ℕ
utf16 String.[] = []
utf16 (String.◌∷◌ c s) =
    let rest = utf16 s in
    if leb 65536 (code c)
    then (55296 + ((code c - 65536) / 1024)) ∷ (56320 + ((code c - 65536) % 1024)) ∷ rest
    else code c ∷ rest

-- The white space that `trim` and `\s` take.
abbrev pub is_space : ℕ → Bool
is_space c =
    (leb 9 c && leb c 13)
    || (c == 32)
    || (c == 160)
    || (c == 5760)
    || (leb 8192 c && leb c 8202)
    || (c == 8232)
    || (c == 8233)
    || (c == 8239)
    || (c == 8287)
    || (c == 12288)
    || (c == 65279)

abbrev pub all_space : List ℕ → Bool
all_space [] = true
all_space (c ∷ cs) = is_space c && all_space cs

-- `text.trim() === ''`
unfoldable pub is_blank : String → Bool
is_blank s = all_space (codes s)

-- `trimStart`, `trimEnd`, `trim`
abbrev pub trim_start : String → String
trim_start String.[] = ""
trim_start (String.◌∷◌ c s) =
    let rest = trim_start s in if is_space (code c) then rest else String.◌∷◌ c s

abbrev pub is_empty : String → Bool
is_empty String.[] = true
is_empty (String.◌∷◌ c s) = false

abbrev pub trim_end : String → String
trim_end String.[] = ""
trim_end (String.◌∷◌ c s) =
    let rest = trim_end s in if is_empty rest && is_space (code c) then "" else String.◌∷◌ c rest

unfoldable pub trim : String → String
trim s = trim_end (trim_start s)

abbrev pub char_or : Char → String → ℕ → Char
char_or d String.[] i = d
char_or d (String.◌∷◌ c s) zero = c
char_or d (String.◌∷◌ c s) (suc i) = char_or d s i

-- A letter of the Latin alphabet in lower case, any other character as it is.
abbrev pub to_lower : Char → Char
to_lower c =
    if leb 65 (code c) && leb (code c) 90
    then char_or c "abcdefghijklmnopqrstuvwxyz" (code c - 65)
    else c

-- `toLowerCase`, on texts of ASCII characters.
abbrev pub to_lower_case : String → String
to_lower_case String.[] = ""
to_lower_case (String.◌∷◌ c s) = String.◌∷◌ (to_lower c) (to_lower_case s)
