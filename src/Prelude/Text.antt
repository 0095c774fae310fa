-- ===== src/Prelude/Text.antt =====
-- What the program uses of Go's `strings` and `unicode/utf8`, over native strings.
use Prim.Native.Nat.{ℕ, zero, suc, ◌+◌, ◌-◌}
use Prim.Native.Char.{Char, code}
use Prim.Native.String.{String}
use mathlib.Core.Bool.{Bool, true, ◌&&◌, ◌||◌}
use mathlib.Core.Option.{Option, none, some}
use open_im.Prelude.Tests.{leb, ltb, eqb, if◌then◌else◌}

-- Go's `+` on strings.
abbrev pub append : String → String → String
append String.[] t = t
append (String.◌∷◌ c s) t = String.◌∷◌ c (append s t)

-- `strings.HasPrefix` and `strings.TrimPrefix` in one: what is left after the prefix.
abbrev pub strip_prefix : String → String → Option String
strip_prefix String.[] s = some s
strip_prefix (String.◌∷◌ c p) String.[] = none
strip_prefix (String.◌∷◌ c p) (String.◌∷◌ d s) =
    let rest = strip_prefix p s in if eqb (code c) (code d) then rest else none

-- `unicode.IsSpace`.
abbrev pub is_space : ℕ → Bool
is_space c =
    (leb 9 c && leb c 13)
    || eqb c 32
    || eqb c 0x85
    || eqb c 0xA0
    || eqb c 0x1680
    || (leb 0x2000 c && leb c 0x200A)
    || eqb c 0x2028
    || eqb c 0x2029
    || eqb c 0x202F
    || eqb c 0x205F
    || eqb c 0x3000

-- `strings.TrimSpace`.
abbrev pub trim_left : String → String
trim_left String.[] = ""
trim_left (String.◌∷◌ c s) =
    let rest = trim_left s in if is_space (code c) then rest else String.◌∷◌ c s

abbrev pub all_space : String → Bool
all_space String.[] = true
all_space (String.◌∷◌ c s) = is_space (code c) && all_space s

abbrev pub trim_right : String → String
trim_right String.[] = ""
trim_right (String.◌∷◌ c s) =
    let rest = String.◌∷◌ c (trim_right s) in if is_space (code c) && all_space s then "" else rest

abbrev pub trim_space : String → String
trim_space s = trim_right (trim_left s)

-- Bytes of a code point in UTF-8.
abbrev pub utf8_width : ℕ → ℕ
utf8_width c = if ltb c 0x80 then 1 else if ltb c 0x800 then 2 else if ltb c 0x10000 then 3 else 4

-- Go's `len(s)`.
abbrev pub byte_length : String → ℕ
byte_length String.[] = 0
byte_length (String.◌∷◌ c s) = utf8_width (code c) + byte_length s

-- `utf8.RuneCountInString(s)`.
abbrev pub rune_count : String → ℕ
rune_count String.[] = 0
rune_count (String.◌∷◌ c s) = suc (rune_count s)

-- `string([]rune(s)[:n])`, the whole text where it is shorter.
abbrev pub take_runes : ℕ → String → String
take_runes zero s = ""
take_runes (suc n) String.[] = ""
take_runes (suc n) (String.◌∷◌ c s) = String.◌∷◌ c (take_runes n s)

-- `s[:n]`: `none` where the cut falls inside a code point, so that the bytes are no UTF-8 text.
abbrev pub push_rune : Char → Option String → Option String
push_rune c none = none
push_rune c (some s) = some (String.◌∷◌ c s)

abbrev pub take_bytes : ℕ → String → Option String
take_bytes n String.[] = some ""
take_bytes n (String.◌∷◌ c s) =
    let rest = take_bytes (n - utf8_width (code c)) s in
    if eqb n 0 then some "" else if leb (utf8_width (code c)) n then push_rune c rest else none
