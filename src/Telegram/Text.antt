-- ===== src/Telegram/Text.antt =====
-- What internal/telegram uses of Go's `strings`: Fields, Join, EqualFold, ToLower, ToUpper and
-- TrimRight. Of letters outside ASCII, EqualFold and ToUpper know those two that stand for an ASCII
-- letter, U+0131 and U+017F, and U+212A; a bot's name and an alias have no others.
use Prim.Native.Char.{Char, code}
use open_im.Prelude.{
  ℕ, zero, suc, ◌-◌, String, Bool, true, false, ◌&&◌, ◌||◌, List, [], ◌∷◌, if◌then◌else◌, leb, eqb,
  append, is_space, ◌==◌,
}
use open_im.Agent.Mentions.{lower_char}

-- `strings.Fields`: the first word, which may be empty, and the words behind a space.
abbrev pub push_word : String → List String → List String
push_word w ws = if w == "" then ws else w ∷ ws

abbrev pub split_words : String → String × List String
split_words String.[] = ("", [])
split_words (String.◌∷◌ c s) =
    let (w, ws) = split_words s in
    if is_space (code c) then ("", push_word w ws) else (String.◌∷◌ c w, ws)

abbrev pub fields : String → List String
fields s = let (w, ws) = split_words s in push_word w ws

-- `strings.Join(words, separator)`
abbrev pub join : String → List String → String
join separator [] = ""
join separator (w ∷ []) = w
join separator (w ∷ v ∷ ws) = append w (append separator (join separator (v ∷ ws)))

abbrev pub fold_char : Char → ℕ
fold_char c =
    if eqb (code c) 0x212A then 107 else if eqb (code c) 0x17F then 115 else code (lower_char c)

-- `strings.EqualFold`
abbrev pub equal_fold : String → String → Bool
equal_fold String.[] String.[] = true
equal_fold String.[] (String.◌∷◌ d t) = false
equal_fold (String.◌∷◌ c s) String.[] = false
equal_fold (String.◌∷◌ c s) (String.◌∷◌ d t) = eqb (fold_char c) (fold_char d) && equal_fold s t

-- `strings.ToUpper`
abbrev char_of : ℕ → String → Char → Char
char_of n String.[] other = other
char_of zero (String.◌∷◌ c s) other = c
char_of (suc n) (String.◌∷◌ c s) other = char_of n s other

abbrev pub is_lower : ℕ → Bool
is_lower c = leb 97 c && leb c 122

abbrev pub upper_char : Char → Char
upper_char c =
    if is_lower (code c)
    then char_of (code c - 97) "ABCDEFGHIJKLMNOPQRSTUVWXYZ" c
    else if eqb (code c) 0x131
    then char_of 0 "I" c
    else if eqb (code c) 0x17F
    then char_of 0 "S" c
    else c

abbrev pub to_upper : String → String
to_upper String.[] = ""
to_upper (String.◌∷◌ c s) = String.◌∷◌ (upper_char c) (to_upper s)

-- `strings.ReplaceAll(value, "-", "")`
abbrev pub without_dashes : String → String
without_dashes String.[] = ""
without_dashes (String.◌∷◌ c s) =
    let rest = without_dashes s in if eqb (code c) 45 then rest else String.◌∷◌ c rest

-- The cutset `,:;.!?` of `strings.TrimRight`.
abbrev pub is_mark : ℕ → Bool
is_mark c = eqb c 44 || eqb c 58 || eqb c 59 || eqb c 46 || eqb c 33 || eqb c 63

abbrev pub trim_marks : String → String
trim_marks String.[] = ""
trim_marks (String.◌∷◌ c s) =
    let rest = trim_marks s in if is_mark (code c) && rest == "" then "" else String.◌∷◌ c rest

-- What `strings.TrimRight` cuts off.
abbrev pub marks_after : String → String
marks_after String.[] = ""
marks_after (String.◌∷◌ c s) =
    let rest = marks_after s in
    if is_mark (code c) && trim_marks s == "" then String.◌∷◌ c s else rest
