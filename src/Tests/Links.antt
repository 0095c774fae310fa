-- ===== src/Tests/Links.antt =====
-- The theorems on internal/telegram at one member, one challenge and two updates, and the second
-- time that an update comes.
use open_im.Prelude.{
  ℕ, String, ◌≡◌, refl, Bool, true, none, some, List, [], ◌∷◌, Option, append, All,
}
use open_im.Prelude.Decimal.{ℤ}
use open_im.Database.Tx.{Result, ok}
use open_im.Ingress.Message.{Message}
use open_im.Ingress.Tables.{IngressDb}
use open_im.Ingress.Store.{Outcome, ingest_bound}
use open_im.Ingress.Steps
use open_im.Ingress.Again.{IsIngested, source_key_of, ingest_bound_again}
use open_im.Telegram.Codes.{normalize_code, group_code, normalize_code-group_code}
use open_im.Telegram.Tables.{TelegramDb}
use open_im.Telegram.Consumption.{consume_link_challenge}
use open_im.Telegram.Bindings.{issue_link, LinkMember, save_offset, resolve_binding, bind}
use open_im.Telegram.Poller.{Bot, Update, ChatMessage, Repositories}
use open_im.Telegram.Polling.{Polling, run_poller, poll_answer}
use open_im.Telegram.Once.{IsDescending, run_poller-IsDescending}
use open_im.Telegram.Covered.{IsCovered, poll_answer-IsCovered}
use open_im.Telegram.Proven.{IsProven}
use open_im.Telegram.Proven.Steps.{here as linked_here, issued, consumed, bound, LinkSteps-IsProven}
use open_im.Telegram.Proven.Bound.{is_given, named}

abbrev canonical : String
canonical = "ABCDEFGHIJKLMNOPQRSTUVWXYZ234567"

canonical_normalized : normalize_code canonical ≡ some canonical
unfolding normalize_code
canonical_normalized = refl

normalize_code-group_code_example :
    (shown : String) × (group_code canonical ≡ some shown) × (normalize_code shown ≡ some canonical)
normalize_code-group_code_example = normalize_code-group_code canonical canonical_normalized

abbrev nobody : TelegramDb
nobody = record {
  members =
      record { tenant_id = "tenant"; id = "member"; is_active = true; is_tenant_active = true }
      ∷ record { tenant_id = "tenant"; id = "colleague"; is_active = true; is_tenant_active = true }
      ∷ [];
  principals = [];
  chats = [];
  challenges = [];
  offsets = record { bot_id = ℤ.pos 1; next_update_id = 0 } ∷ [];
  link_events = [];
}

abbrev is_digest : String → Bool
is_digest _ = true

abbrev sha256 : String → String
sha256 code = append "sha256:" code

abbrev member : LinkMember
member = record { tenant_id = "tenant"; id = "member" }

abbrev challenged : TelegramDb
challenged =
    (issue_link is_digest sha256 100 canonical "c1" 300_000_000 15_000_000_000 (ok member) nobody).1

abbrev by_challenge : TelegramDb
by_challenge = (consume_link_challenge sha256 200 canonical (ℤ.pos 7) (ℤ.pos 7) challenged).1

LinkSteps-IsProven_example :
    IsProven
      (is_given (named (ℤ.pos 8) "tenant" "colleague" ∷ []))
      (bind (ℤ.pos 8) (ℤ.pos 8) "tenant" "colleague" 1 by_challenge).1
LinkSteps-IsProven_example =
    LinkSteps-IsProven is_digest sha256 {s = record { db = nobody; by_hand = [] }}
      (bound
        (consumed (issued linked_here 100 canonical "c1" 300_000_000 15_000_000_000 (ok member)) 200
          canonical (ℤ.pos 7) (ℤ.pos 7))
        (ℤ.pos 8) (ℤ.pos 8) "tenant" "colleague" 1)
      (record { proven = tt })

-- Repositories over the tables of linking alone: a message is accepted without a trace.
abbrev repositories : Repositories TelegramDb
repositories = record {
  resolve = λ user chat db. resolve_binding user chat db;
  consume_link = λ code user chat db. consume_link_challenge sha256 300 code user chat db;
  reject = λ source id sender reason db. (ok tt, db);
  accept = λ m tenant_id member_id db. (ok Outcome.accepted, db);
  save = λ bot next db. save_offset bot next db;
}

abbrev bot : Bot
bot = record { id = ℤ.pos 1; username = "helper_bot" }

abbrev update_of : ℕ → Update
update_of id = record { id = id; message = none }

abbrev encode : String → String
encode text = text

abbrev answers : List (Option (List Update))
answers = some (update_of 9 ∷ update_of 8 ∷ []) ∷ none ∷ some (update_of 9 ∷ []) ∷ []

run_poller-IsDescending_example :
    IsDescending
      (run_poller repositories encode "@agent" bot answers
        (record { state = nobody; offset = 8; handled = [] })).1.handled
run_poller-IsDescending_example =
    run_poller-IsDescending repositories encode "@agent" bot answers nobody 8

abbrev at_start : Polling TelegramDb
at_start = record { state = nobody; offset = 9; handled = [] }

abbrev at_end : Polling TelegramDb
at_end = record {
  state = record nobody { offsets = record { bot_id = ℤ.pos 1; next_update_id = 10 } ∷ [] };
  offset = 10;
  handled = 9 ∷ [];
}

polled :
    poll_answer repositories encode "@agent" bot (some (update_of 9 ∷ update_of 8 ∷ [])) at_start
    ≡ (ok tt, at_end)
unfolding open_im.Telegram.Polling.poll_updates open_im.Telegram.Polling.poll_update
    open_im.Telegram.Poller.process save_offset
polled = refl

poll_answer-IsCovered_example :
    All (IsCovered at_start.offset at_end.handled) (update_of 9 ∷ update_of 8 ∷ [])
poll_answer-IsCovered_example =
    poll_answer-IsCovered repositories encode "@agent" bot (update_of 9 ∷ update_of 8 ∷ []) at_start
      at_end polled

abbrev linked : Message
linked = record {
  source = record { topic = "telegram.getUpdates"; partition = 0; offset = ℤ.pos 9; key = "9" };
  source_channel = "telegram";
  member_id = "member";
  server_msg_id = "telegram:7:5";
  client_msg_id = "telegram-update:9";
  sender_id = "telegram:7";
  conversation_id = "tg_7";
  session_type = 1;
  content_type = 101;
  content = "@agent hello";
  occurred_at = ℤ.pos 1_700_000;
}

abbrev rfc3339 : ℤ → String
rfc3339 _ = "1970-01-01T00:28:20Z"

abbrev empty : IngressDb
empty = record {
  links = [];
  bots = [];
  members = record { id = "member"; tenant_id = "tenant"; is_active = true } ∷ [];
  messages = [];
  outbox = [];
  rejections = [];
}

abbrev received : IngressDb
received = (ingest_bound rfc3339 "e1" 100 linked "tenant" "member" empty).1

received-IsIngested : IsIngested (source_key_of linked) received
unfolding ingest_bound open_im.Ingress.Store.ingest_bound_tx open_im.Ingress.Store.ingest_message
    open_im.Ingress.Store.ingest_event open_im.Ingress.Store.after_insert
    open_im.Ingress.Message.to_event open_im.Ingress.Tables.insert_message
    open_im.Ingress.Tables.insert_outbox open_im.Database.Tx.query open_im.Database.Tx.pure
    open_im.Database.Tx.raise open_im.Database.Tx.transact
received-IsIngested = record { there = refl }

ingest_bound_again_example :
    (ingest_bound rfc3339 "e2" 200 linked "tenant" "member" received).1 ≡ received
ingest_bound_again_example =
    ingest_bound_again rfc3339 "e2" 200 linked "tenant" "member" {s = received} received-IsIngested
      Steps.here
