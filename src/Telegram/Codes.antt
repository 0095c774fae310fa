-- ===== src/Telegram/Codes.antt =====
-- internal/telegram/link.go: the code of a link challenge, as it is shown and as it is read.
use Prim.Native.Char.{Char, code}
use open_im.Prelude.{
  ℕ, zero, suc, String, ◌≡◌, refl, sym, ap, ◌∙◌, Bool, true, false, not, ◌&&◌, ◌||◌, Option, none,
  some, arith, if◌then◌else◌, leb, eqb, append, is_space, byte_length, trim_space, trim_right,
  all_space, utf8_width, Bool-cases, inl, inr,
}
use open_im.Telegram.Text.{to_upper, upper_char, without_dashes}

abbrev pub is_code_char : ℕ → Bool
is_code_char c = (leb 65 c && leb c 90) || (leb 50 c && leb c 55)

abbrev pub all_code : String → Bool
all_code String.[] = true
all_code (String.◌∷◌ c s) = is_code_char (code c) && all_code s

-- normalizeChallengeCode
abbrev pub normalized : String → Option String
normalized value =
    if not (eqb (byte_length value) 32) then none else if all_code value then some value else none

unfoldable pub normalize_code : String → Option String
normalize_code value = normalized (to_upper (without_dashes (trim_space value)))

-- challengeDigest, with SHA-256 and its hexadecimal digits as an argument.
abbrev pub code_or_empty : Option String → String
code_or_empty none = ""
code_or_empty (some code) = code

unfoldable pub challenge_digest : (String → String) → String → String
unfolding normalize_code
challenge_digest sha256 code = sha256 (code_or_empty (normalize_code code))

-- groupChallengeCode; a slice past the end panics.
abbrev pub group_of : Char → Char → Char → Char → String → String
group_of a b c d s = String.◌∷◌ a (String.◌∷◌ b (String.◌∷◌ c (String.◌∷◌ d s)))

abbrev pub before_group : Char → Char → Char → Char → Option String → Option String
before_group a b c d none = none
before_group a b c d (some s) = some (group_of a b c d (append "-" s))

unfoldable pub group_code : String → Option String
group_code String.[] = some ""
group_code (String.◌∷◌ a (String.◌∷◌ b (String.◌∷◌ c (String.◌∷◌ d String.[])))) =
    some (group_of a b c d "")
group_code (String.◌∷◌ a (String.◌∷◌ b (String.◌∷◌ c (String.◌∷◌ d (String.◌∷◌ e s))))) =
    before_group a b c d (group_code (String.◌∷◌ e s))
group_code _ = none

-- Texts of characters of a code and dashes.
abbrev IsShown : String → Type 0
IsShown String.[] = Unit {0}
IsShown (String.◌∷◌ c s) = ((is_code_char (code c) || eqb (code c) 45) ≡ true) × IsShown s

all_space-false :
    (c : Char) (s : String) → is_space (code c) ≡ false → (is_space (code c) && all_space s) ≡ false
all_space-false c s h = ground arith

shown-not_space :
    (c : Char) → (is_code_char (code c) || eqb (code c) 45) ≡ true → is_space (code c) ≡ false
shown-not_space c h = ground arith

trim_right_shown : (s : String) → IsShown s → trim_right s ≡ s
trim_right_shown String.[] h = refl
trim_right_shown (String.◌∷◌ c s) (hc, h) = rw (shown-not_space c hc, trim_right_shown s h) refl

trim_shown : (s : String) → IsShown s → trim_space s ≡ s
trim_shown String.[] h = refl
trim_shown (String.◌∷◌ c s) (hc, h) =
    rw (shown-not_space c hc) (trim_right_shown (String.◌∷◌ c s) (hc, h))

upper_code : (c : Char) → is_code_char (code c) ≡ true → upper_char c ≡ c
upper_code c h = ground arith

to_upper_code : (s : String) → all_code s ≡ true → to_upper s ≡ s
to_upper_code String.[] h = refl
to_upper_code (String.◌∷◌ c s) h =
    rw (upper_code c (ground arith), to_upper_code s (ground arith)) refl

-- What is shown of a text of whole groups, if it is one.
record Grouped (s : String) : Type 0 where
  shown : String
  is_grouped : group_code s ≡ some shown
  is_shown : IsShown shown
  without : without_dashes shown ≡ s

code_width : (c : Char) → is_code_char (code c) ≡ true → utf8_width (code c) ≡ 1
code_width c h = ground arith

code_shown :
    (c : Char) → is_code_char (code c) ≡ true → (is_code_char (code c) || eqb (code c) 45) ≡ true
code_shown c h = ground arith

code-not_dash : (c : Char) → is_code_char (code c) ≡ true → eqb (code c) 45 ≡ false
code-not_dash c h = ground arith

code_first :
    (c : Char) (s : String) → all_code (String.◌∷◌ c s) ≡ true → is_code_char (code c) ≡ true
code_first c s h = ground arith

code_rest : (c : Char) (s : String) → all_code (String.◌∷◌ c s) ≡ true → all_code s ≡ true
code_rest c s h = ground arith

without-dashes_code : (s : String) → all_code s ≡ true → without_dashes s ≡ s
without-dashes_code String.[] h = refl
without-dashes_code (String.◌∷◌ c s) h =
    rw (code-not_dash c (code_first c s h), without-dashes_code s (code_rest c s h)) refl

-- A text of `n` characters of a code.
abbrev IsCode : ℕ → String → Type 0
IsCode zero String.[] = Unit {0}
IsCode zero (String.◌∷◌ c s) = ⊥
IsCode (suc n) String.[] = ⊥
IsCode (suc n) (String.◌∷◌ c s) = (is_code_char (code c) ≡ true) × IsCode n s

all_code-IsCode : (n : ℕ) (s : String) → all_code s ≡ true → byte_length s ≡ n → IsCode n s
all_code-IsCode zero String.[] h e = tt
all_code-IsCode zero (String.◌∷◌ c s) h e =
    let w = code_width c (code_first c s h) in absurd (omega arith)
all_code-IsCode (suc n) String.[] h e = absurd (omega arith)
all_code-IsCode (suc n) (String.◌∷◌ c s) h e =
    let w = code_width c (code_first c s h) in
    (code_first c s h, all_code-IsCode n s (code_rest c s h) (omega arith))

abbrev fours : ℕ → ℕ
fours zero = zero
fours (suc n) = suc (suc (suc (suc (fours n))))

module _ (a b c d : Char) (ha : is_code_char (code a) ≡ true) (hb : is_code_char (code b) ≡ true)
    (hc : is_code_char (code c) ≡ true) (hd : is_code_char (code d) ≡ true) where
  IsShown-group_of : (s : String) → IsShown s → IsShown (group_of a b c d s)
  IsShown-group_of s h =
      (code_shown a ha, (code_shown b hb, (code_shown c hc, (code_shown d hd, h))))

  without_group :
      (s : String) → without_dashes (group_of a b c d s) ≡ group_of a b c d (without_dashes s)
  without_group s =
      rw (code-not_dash a ha, code-not_dash b hb, code-not_dash c hc, code-not_dash d hd) refl

  last_group : Grouped (group_of a b c d "")
  unfolding group_code
  last_group = record {
    shown = group_of a b c d "";
    is_grouped = refl;
    is_shown = IsShown-group_of "" tt;
    without = without_group "";
  }

  next_group :
      (e : Char) (s : String)
      → Grouped (String.◌∷◌ e s)
      → Grouped (group_of a b c d (String.◌∷◌ e s))
  unfolding group_code
  next_group e s g = record {
    shown = group_of a b c d (append "-" g.shown);
    is_grouped = rw g.is_grouped refl;
    is_shown = IsShown-group_of (append "-" g.shown) (refl, g.is_shown);
    without = without_group (append "-" g.shown) ∙ ap (group_of a b c d) g.without;
  }

grouped : (n : ℕ) (s : String) → IsCode (fours (suc n)) s → Grouped s
grouped n String.[] h = absurd h
grouped n (String.◌∷◌ a String.[]) (ha, h) = absurd h
grouped n (String.◌∷◌ a (String.◌∷◌ b String.[])) (ha, (hb, h)) = absurd h
grouped n (String.◌∷◌ a (String.◌∷◌ b (String.◌∷◌ c String.[]))) (ha, (hb, (hc, h))) = absurd h
grouped n (String.◌∷◌ a (String.◌∷◌ b (String.◌∷◌ c (String.◌∷◌ d String.[]))))
      (ha, (hb, (hc, (hd, h)))) =
    last_group a b c d ha hb hc hd
grouped zero (String.◌∷◌ a (String.◌∷◌ b (String.◌∷◌ c (String.◌∷◌ d (String.◌∷◌ e s)))))
      (ha, (hb, (hc, (hd, h)))) =
    absurd h
grouped (suc n) (String.◌∷◌ a (String.◌∷◌ b (String.◌∷◌ c (String.◌∷◌ d (String.◌∷◌ e s)))))
      (ha, (hb, (hc, (hd, h)))) =
    next_group a b c d ha hb hc hd e s (grouped n (String.◌∷◌ e s) h)

normalized-code :
    (value s : String)
    → normalized value ≡ some s
    → (value ≡ s) × (byte_length value ≡ 32) × (all_code value ≡ true)
normalized-code value s h = elim (Bool-cases (eqb (byte_length value) 32)) [
  | inr e ↦ absurd (ground arith)
  | inl e ↦ elim (Bool-cases (all_code value)) [
    | inr f ↦ absurd (ground arith)
    | inl f ↦ (ground arith, ground arith, f)
  ]
]

normalized_self : (s : String) → byte_length s ≡ 32 → all_code s ≡ true → normalized s ≡ some s
normalized_self s e f = ground arith

-- A code that is canonical, so that it normalizes to itself, is shown in groups of four without a
-- panic, and what a member sends back, as it is shown, normalizes to the code again.
pub normalize_code-group_code :
    (s : String)
    → normalize_code s ≡ some s
    → (shown : String) × (group_code s ≡ some shown) × (normalize_code shown ≡ some s)
unfolding normalize_code
normalize_code-group_code s h =
    let (same, length, coded) = normalized-code (to_upper (without_dashes (trim_space s))) s h in
    let is_code : all_code s ≡ true = rw (sym same) coded in
    let is_long : byte_length s ≡ 32 = rw (sym same) length in
    let g = grouped 7 s (all_code-IsCode 32 s is_code is_long) in
    (
      g.shown,
      g.is_grouped,
      rw (trim_shown g.shown g.is_shown, g.without, to_upper_code s is_code)
          (normalized_self s is_long is_code),
    )
