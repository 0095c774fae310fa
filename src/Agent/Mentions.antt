-- ===== src/Agent/Mentions.antt =====
-- internal/agent/event.go, Classify, extractMentions and isAliasByte: the Agents that a message
-- mentions. The decoding of the event's text is an argument.
use Prim.Native.Char.{Char, code}
use open_im.Prelude.{
  ℕ, zero, suc, ◌-◌, String, ◌≡◌, Bool, true, false, ◌&&◌, ◌||◌, not, Option, none, some, List, [],
  ◌∷◌, arith, All, All-map, if◌then◌else◌, leb, eqb, append, trim_space, Bool-cases, inl, inr, ◌==◌,
}
use open_im.Database.Tx.{Result, ok, err}
use open_im.Agent.Resolve.{Mention, Trigger}
use open_im.Agent.Grounding.{has_text}

-- ingress.Event, with the fields that Classify reads.
pub record Event : Type 0 where
  pub event_id : String
  pub event_type : String
  pub tenant_id : String
  pub source_channel : String
  pub conversation_id : String
  pub sender_id : String
  pub principal_member_id : String
  pub session_type : ℕ
  pub content_type : ℕ
  pub content : String

abbrev between : ℕ → ℕ → ℕ → Bool
between lo hi n = leb lo n && leb n hi

-- isAliasByte: no byte of a longer code point is one.
abbrev pub is_alias_char : Char → Bool
is_alias_char c =
    between 97 122 (code c)
    || between 65 90 (code c)
    || between 48 57 (code c)
    || eqb (code c) 95
    || eqb (code c) 45

-- `strings.ToLower`, of alias characters.
abbrev char_at : ℕ → String → Char → Char
char_at n String.[] other = other
char_at zero (String.◌∷◌ c s) other = c
char_at (suc n) (String.◌∷◌ c s) other = char_at n s other

abbrev pub lower_char : Char → Char
lower_char c =
    if between 65 90 (code c) then char_at (code c - 65) "abcdefghijklmnopqrstuvwxyz" c else c

abbrev pub to_lower : String → String
to_lower String.[] = ""
to_lower (String.◌∷◌ c s) = String.◌∷◌ (lower_char c) (to_lower s)

-- The alias characters at the start of a text, and what follows them.
abbrev pub leading : String → String
leading String.[] = ""
leading (String.◌∷◌ c s) = let rest = leading s in if is_alias_char c then String.◌∷◌ c rest else ""

abbrev pub following : String → String
following String.[] = ""
following (String.◌∷◌ c s) =
    let rest = following s in if is_alias_char c then rest else String.◌∷◌ c s

abbrev pub alias_of : String → String
alias_of s = to_lower (append "@" (leading s))

-- `content[index] == '@'`, not after an alias character, with a name, and not seen before.
abbrev pub is_mention : Char → Bool → List String → String → Bool
is_mention c after_alias seen s =
    eqb (code c) 64 && not after_alias && not (leading s == "") && not (has_text (alias_of s) seen)

abbrev pub note : Bool → String → List String → List String
note true alias seen = alias ∷ seen
note false alias seen = seen

-- The loop at one index: what is before it, whether that ends in an alias character, and what is
-- left. It goes on one by one, where the code jumps over the alias, in which no `@` stands.
unfoldable pub scan : String → Bool → List String → String → List Mention
scan before after_alias seen String.[] = []
scan before after_alias seen (String.◌∷◌ c s) =
    let rest =
      scan (append before (String.◌∷◌ c String.[])) (is_alias_char c)
        (note (is_mention c after_alias seen s) (alias_of s) seen) s in
    if is_mention c after_alias seen s
    then record { alias = alias_of s; prompt = trim_space (append before (following s)) } ∷ rest
    else rest

-- extractMentions
abbrev pub extract_mentions : String → List Mention
extract_mentions content = scan "" false [] content

abbrev pub is_incomplete : Event → Bool
is_incomplete e =
    not (e.event_type == "im.message.accepted.v1")
    || e.event_id == ""
    || e.tenant_id == ""
    || e.source_channel == ""
    || e.conversation_id == ""
    || e.sender_id == ""

abbrev pub trigger_of : Event → List Mention → Trigger
trigger_of e mentions = record {
  event_id = e.event_id;
  tenant_id = e.tenant_id;
  member_id = e.principal_member_id;
  source_channel = e.source_channel;
  conversation_id = e.conversation_id;
  sender_id = e.sender_id;
  session_type = e.session_type;
  mentions = mentions;
}

abbrev pub classify_mentions : Event → List Mention → Result (Option Trigger)
classify_mentions e [] = ok none
classify_mentions e (m ∷ ms) =
    if e.principal_member_id == ""
    then err "triggering enterprise member is missing"
    else if not (eqb e.session_type 1) && not (eqb e.session_type 2)
    then err "agent session type is unsupported"
    else ok (some (trigger_of e (m ∷ ms)))

abbrev pub classify_text : Event → Option String → Result (Option Trigger)
classify_text e none = err "text content is not valid JSON"
classify_text e (some text) = classify_mentions e (extract_mentions text)

-- Classify: a trigger, or none, or an error.
unfoldable pub classify_event : (String → Option String) → Event → Result (Option Trigger)
classify_event decode e =
    if is_incomplete e
    then err "required event identity is missing"
    else if not (eqb e.content_type 101)
    then ok none
    else classify_text e (decode e.content)

-- No two mentions have one alias.
abbrev pub IsDistinct : List Mention → Type 0
IsDistinct [] = Unit {0}
IsDistinct (m ∷ ms) = All (λ (n : Mention). (m.alias == n.alias) ≡ false) ms × IsDistinct ms

scan-fresh :
    (before : String) (after_alias : Bool) (seen : List String) (s : String)
    → All (λ (m : Mention). has_text m.alias seen ≡ false) (scan before after_alias seen s)
      × IsDistinct (scan before after_alias seen s)
unfolding scan
scan-fresh before after_alias seen String.[] = (tt, tt)
scan-fresh before after_alias seen (String.◌∷◌ c s) =
    elim (Bool-cases (is_mention c after_alias seen s)) [
      | inr e ↦ rw e (scan-fresh (append before (String.◌∷◌ c String.[])) (is_alias_char c) seen s)
      | inl e ↦
          let (fresh, distinct) =
            scan-fresh (append before (String.◌∷◌ c String.[])) (is_alias_char c)
              (alias_of s ∷ seen) s in
          rw e (
            (ground arith, All-map _ _ _ (λ m h. ground arith) fresh),
            (All-map _ _ _ (λ m h. ground arith) fresh, distinct),
          )
    ]

-- The mentions of a text have distinct aliases, so each alias has one prompt.
pub extract_mentions-IsDistinct : (content : String) → IsDistinct (extract_mentions content)
extract_mentions-IsDistinct content =
    let (fresh, distinct) = scan-fresh "" false [] content in distinct
