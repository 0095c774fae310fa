-- ===== src/Telegram/Poller.antt =====
-- internal/telegram/poller.go. The repositories that the poller calls are a record of functions on
-- the state `S` behind them; `encode` is the JSON of a text. An update's id is a natural number.
use open_im.Prelude.{
  ℕ, ◌+◌, ◌*◌, String, Bool, true, false, ◌||◌, ◌&&◌, not, Option, none, some, List, [], ◌∷◌,
  if◌then◌else◌, any, map, append, eqb, leb, strip_prefix, trim_space, byte_length, ◌==◌,
}
use Prim.Native.Char.{code}
use open_im.Prelude.Decimal.{ℤ, pos, negsuc, is_zero, format_int, format_nat}
use open_im.Database.Tx.{Result, ok, err}
use open_im.Agent.Mentions.{to_lower}
use open_im.Ingress.Message.{IngressSource, Message, is_positive}
use open_im.Ingress.Store.{Outcome}
use open_im.Telegram.{conversation_of}
use open_im.Telegram.Text.{fields, join, equal_fold, trim_marks, marks_after}
use open_im.Telegram.Codes.{normalize_code, code_or_empty}
use open_im.Telegram.Store.{
  Binding, invalid_challenge, binding_conflict, already_bound, unbound_chat,
}

pub record Bot : Type 0 where
  pub id : ℤ
  pub username : String

pub record ChatMessage : Type 0 where
  pub id : ℤ
  pub from : Option ℤ
  pub chat_id : ℤ
  pub chat_type : String
  pub text : String
  pub date : ℤ

pub record Update : Type 0 where
  pub id : ℕ
  pub message : Option ChatMessage

-- BindingRepository, ChallengeConsumer and Ingress.
pub record Repositories (S : Type 0) : Type 0 where
  pub resolve : ℤ → ℤ → S → Result Binding
  pub consume_link : String → ℤ → ℤ → S → Result Binding × S
  pub reject : IngressSource → String → String → String → S → Result (Unit {0}) × S
  pub accept : Message → String → String → S → Result Outcome × S
  pub save : ℤ → ℕ → S → Result (Unit {0}) × S

-- `strings.TrimPrefix(name, "@")`
abbrev or_whole : String → Option String → String
or_whole s none = s
or_whole s (some rest) = rest

abbrev pub plain_name : String → String
plain_name name = or_whole (trim_space name) (strip_prefix "@" (trim_space name))

-- The code of a command with one argument; another is recognized without a code.
abbrev pub code_in : List String → String
code_in (argument ∷ []) = code_or_empty (normalize_code argument)
code_in _ = ""

abbrev pub is_link : String → String → Bool
is_link command bot =
    to_lower command == "/link" || equal_fold (to_lower command) (append "/link@" (plain_name bot))

abbrev pub link_in : String → List String → Option String
link_in bot [] = none
link_in bot (command ∷ arguments) = if is_link command bot then some (code_in arguments) else none

-- parseLinkCommand
unfoldable pub parse_link_command : String → String → Option String
unfolding normalize_code
parse_link_command text bot = link_in bot (fields (trim_space text))

-- replaceMention
abbrev pub replace_field : String → String → String → String
replace_field from to field =
    if equal_fold (trim_marks field) from then append to (marks_after field) else field

abbrev pub replace_mention : String → String → String → String
replace_mention text from to = join " " (map (replace_field from to) (fields text))

-- containsMention
abbrev pub contains_mention : String → String → Bool
contains_mention text alias = any (λ field. equal_fold (trim_marks field) alias) (fields text)

abbrev pub bot_mention : String → String
bot_mention bot = append "@" (to_lower (trim_space bot))

abbrev pub with_alias : String → String → String → String
with_alias text chat_type alias =
    if chat_type == "private" && not (contains_mention text alias)
    then append text (append " " alias)
    else text

-- normalizeTrigger
unfoldable pub normalize_trigger : String → String → String → String → String
normalize_trigger text chat_type bot alias =
    let trimmed = trim_space text in
    let replaced =
      if bot_mention bot == "@" then trimmed else replace_mention trimmed (bot_mention bot) alias in
    trim_space (with_alias replaced chat_type alias)

-- validAlias
abbrev pub is_alias_code : ℕ → Bool
is_alias_code c = (leb 97 c && leb c 122) || (leb 48 c && leb c 57) || eqb c 95 || eqb c 45

abbrev pub all_alias : String → Bool
all_alias String.[] = true
all_alias (String.◌∷◌ c s) = is_alias_code (code c) && all_alias s

abbrev pub is_valid_alias : String → Bool
is_valid_alias String.[] = false
is_valid_alias (String.◌∷◌ c s) =
    leb 2 (byte_length (String.◌∷◌ c s))
    && leb (byte_length (String.◌∷◌ c s)) 64
    && eqb (code c) 64
    && all_alias s

-- chatTypeMatches
abbrev pub chat_type_matches : String → ℕ → Bool
chat_type_matches chat_type session_type =
    (eqb session_type 1 && chat_type == "private")
    || (eqb session_type 2 && (chat_type == "group" || chat_type == "supergroup"))

-- telegramMessageID and telegramSenderID
abbrev pub telegram_message_id : ℤ → ℤ → String
telegram_message_id chat id =
    append "telegram:" (append (format_int chat) (append ":" (format_int id)))

abbrev pub telegram_sender_id : ℤ → String
telegram_sender_id user = append "telegram:" (format_int user)

abbrev pub source_of : Update → IngressSource
source_of u = record {
  topic = "telegram.getUpdates";
  partition = 0;
  offset = pos u.id;
  key = format_nat u.id;
}

-- `time.Unix(update.Message.Date, 0)`, in milliseconds.
abbrev pub milliseconds : ℤ → ℤ
milliseconds (pos n) = pos (n * 1_000)
milliseconds (negsuc n) = negsuc (n * 1_000 + 999)

abbrev pub ingress_message : String → Update → ChatMessage → ℤ → Binding → Message
ingress_message content u m user b = record {
  source = source_of u;
  source_channel = "telegram";
  member_id = b.member_id;
  server_msg_id = telegram_message_id m.chat_id m.id;
  client_msg_id = append "telegram-update:" (format_nat u.id);
  sender_id = telegram_sender_id user;
  conversation_id = conversation_of m.chat_id;
  session_type = b.session_type;
  content_type = 101;
  content = content;
  occurred_at = milliseconds m.date;
}

module _ {S : Type 0} (p : Repositories S) (encode : String → String) (alias : String)
    (bot : Bot) where
  -- `return p.ingress.Reject(…)` with the ids of the message.
  abbrev pub refuse : Update → ChatMessage → ℤ → String → S → Result (Unit {0}) × S
  refuse u m user reason s =
      p.reject (source_of u) (telegram_message_id m.chat_id m.id) (telegram_sender_id user) reason s

  abbrev pub after_link : Update → ChatMessage → ℤ → Result Binding × S → Result (Unit {0}) × S
  after_link u m user (ok _, s) = (ok tt, s)
  after_link u m user (err e, s) =
      if e == invalid_challenge
      then refuse u m user "telegram_link_challenge_invalid" s
      else if e == binding_conflict || e == already_bound
      then refuse u m user "telegram_link_binding_conflict" s
      else (err e, s)

  abbrev pub process_link : Update → ChatMessage → ℤ → String → S → Result (Unit {0}) × S
  process_link u m user code s =
      if not (m.chat_type == "private")
      then refuse u m user "telegram_link_private_chat_required" s
      else if code == ""
      then refuse u m user "telegram_link_challenge_invalid" s
      else after_link u m user (p.consume_link code user m.chat_id s)

  abbrev pub forget : Result Outcome × S → Result (Unit {0}) × S
  forget (ok _, s) = (ok tt, s)
  forget (err e, s) = (err e, s)

  unfoldable pub process_bound :
      Update → ChatMessage → ℤ → Result Binding → S → Result (Unit {0}) × S
  unfolding normalize_trigger
  process_bound u m user (err e) s =
      if e == unbound_chat then refuse u m user "telegram_unbound_identity" s else (err e, s)
  process_bound u m user (ok b) s =
      if not (chat_type_matches m.chat_type b.session_type)
      then refuse u m user "telegram_chat_type_mismatch" s
      else if not (is_positive m.date)
      then refuse u m user "telegram_message_timestamp_missing" s
      else forget (
          p.accept
            (ingress_message (encode (normalize_trigger m.text m.chat_type bot.username alias)) u m
              user b)
            b.tenant_id b.member_id s)

  abbrev pub process_command : Update → ChatMessage → ℤ → Option String → S → Result (Unit {0}) × S
  process_command u m user (some code) s = process_link u m user code s
  process_command u m user none s = process_bound u m user (p.resolve user m.chat_id s) s

  abbrev pub process_from : Update → ChatMessage → Option ℤ → S → Result (Unit {0}) × S
  process_from u m none s = p.reject (source_of u) "" "" "telegram_unsupported_update" s
  process_from u m (some user) s =
      if not (is_positive m.id) || is_zero m.chat_id || trim_space m.text == ""
      then p.reject (source_of u) "" "" "telegram_unsupported_update" s
      else process_command u m user (parse_link_command m.text bot.username) s

  abbrev pub process_message : Update → Option ChatMessage → S → Result (Unit {0}) × S
  process_message u none s = p.reject (source_of u) "" "" "telegram_unsupported_update" s
  process_message u (some m) s = process_from u m m.from s

  -- Poller.process
  unfoldable pub process : Update → S → Result (Unit {0}) × S
  unfolding process_bound parse_link_command
  process u s = process_message u u.message s
