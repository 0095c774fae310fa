-- ===== src/Ingress/Log.antt =====
-- What the outbox of internal/ingress/store.go promises: a log of events, each of which is
-- announced at most once and for good.
use open_im.Prelude.{
  String, ◌≡◌, sym, Bool, true, false, List, [], ◌∷◌, ◌++◌, arith, All, All-append, All-map, map,
  any, update_where, if◌then◌else◌, ◌==◌, eq_iff,
}
use open_im.Ingress.Tables.{OutboxRow, OutboxState, IngressDb}
pub mod Updates
pub mod Steps

pub record Entry : Type 0 where
  pub id : String
  pub is_out : Bool

abbrev pub is_entry : String → Entry → Bool
is_entry id e = e.id == id

abbrev pub announce : String → List Entry → List Entry
announce id log = update_where (is_entry id) (λ e. record e { is_out = true }) log

-- A new event is accepted at the end of the log, or an event of the log is announced.
pub data LogSteps (a : List Entry) : List Entry → Type 0 where
  same : LogSteps a a
  accepted :
      {b : List Entry}
      → LogSteps a b
      → (id : String) → any (is_entry id) b ≡ false
      → LogSteps a (b ++ record { id = id; is_out = false } ∷ [])
  announced :
      {b : List Entry}
      → LogSteps a b
      → (id : String) → any (is_entry id) b ≡ true
      → LogSteps a (announce id b)

abbrev pub is_published : OutboxState → Bool
is_published OutboxState.published = true
is_published _ = false

abbrev pub entry_of : OutboxRow → Entry
entry_of o = record { id = o.event_id; is_out = is_published o.state }

-- The outbox as a log.
abbrev pub log_of : IngressDb → List Entry
log_of db = map entry_of db.outbox

-- No event stands in the log twice.
abbrev pub IsKeyed : List Entry → Type 0
IsKeyed [] = Unit {0}
IsKeyed (e ∷ es) = All (λ (f : Entry). is_entry e.id f ≡ false) es × IsKeyed es

IsKeyed-accept :
    (id : String) (log : List Entry)
    → any (is_entry id) log ≡ false
    → IsKeyed log
    → IsKeyed (log ++ record { id = id; is_out = false } ∷ [])
IsKeyed-accept id [] fresh h = (tt, tt)
IsKeyed-accept id (e ∷ es) fresh (apart, h) = (
  All-append (λ (f : Entry). is_entry e.id f ≡ false) es _ apart
      (ground (arith, eq_iff e.id id, eq_iff id e.id), tt),
  IsKeyed-accept id es (ground arith) h,
)

apart-announce :
    (id key : String) (log : List Entry)
    → All (λ (f : Entry). is_entry key f ≡ false) log
    → All (λ (f : Entry). is_entry key f ≡ false) (announce id log)
apart-announce id key [] h = tt
apart-announce id key (e ∷ es) (he, h) = (ground arith, apart-announce id key es h)

IsKeyed-announce : (id : String) (log : List Entry) → IsKeyed log → IsKeyed (announce id log)
IsKeyed-announce id [] h = tt
IsKeyed-announce id (e ∷ es) (apart, h) =
    kept (is_entry id e) (apart-announce id e.id es apart) (IsKeyed-announce id es h)
  where
    kept :
        (b : Bool)
        → All (λ (f : Entry). is_entry e.id f ≡ false) (announce id es)
        → IsKeyed (announce id es)
        → IsKeyed ((if b then record e { is_out = true } else e) ∷ announce id es)
    kept true a k = (a, k)
    kept false a k = (a, k)

pub LogSteps-IsKeyed : {a b : List Entry} → LogSteps a b → IsKeyed a → IsKeyed b
LogSteps-IsKeyed same h = h
LogSteps-IsKeyed (accepted {b} before id fresh) h =
    IsKeyed-accept id b fresh (LogSteps-IsKeyed before h)
LogSteps-IsKeyed (announced {b} before id there) h =
    IsKeyed-announce id b (LogSteps-IsKeyed before h)
