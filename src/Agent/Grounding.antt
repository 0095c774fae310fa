-- ===== src/Agent/Grounding.antt =====
-- internal/agent/worker.go, validateCitations, validateKnowledgeCandidate, validateActionCandidate
-- and extractTicketTitle: what the worker accepts as an answer.
use Prim.Native.Char.{Char, code}
use open_im.Prelude.{
  String, Bool, true, false, ◌&&◌, ◌||◌, not, Option, none, some, List, [], ◌∷◌, if◌then◌else◌, leb,
  ltb, eqb, any, find, append, strip_prefix, trim_space, byte_length, ◌==◌,
}
use open_im.Database.Tx.{Result, ok, err}
use open_im.Agent.Run.{Candidate, ActionIntent, EvidenceItem}
use open_im.Agent.Catalog.{AgentSpec, allows_action}

-- `strings.Contains`
abbrev pub starts_with : String → String → Bool
starts_with part text = elim (strip_prefix part text) [ none ↦ false | some _ ↦ true ]

abbrev pub contains : String → String → Bool
contains part String.[] = starts_with part ""
contains part (String.◌∷◌ c text) = starts_with part (String.◌∷◌ c text) || contains part text

-- `citationPattern`, \[C[0-9]+\]: what follows a `[C`, up to the `]`. Two matches never overlap,
-- for a match has its only `[` at its start.
abbrev pub is_digit : Char → Bool
is_digit c = leb 48 (code c) && leb (code c) 57

abbrev pub put : Char → Option String → Option String
put c none = none
put c (some s) = some (String.◌∷◌ c s)

abbrev pub citation_number : Bool → String → Option String
citation_number seen String.[] = none
citation_number seen (String.◌∷◌ c s) =
    let rest = citation_number true s in
    if is_digit c then put c rest else if seen && eqb (code c) 93 then some "" else none

abbrev pub citation_at : Option String → Option String
citation_at none = none
citation_at (some s) = citation_number false s

abbrev pub with_found : Option String → List String → List String
with_found none ids = ids
with_found (some digits) ids = append "C" digits ∷ ids

-- `citationPattern.FindAllString`, each without its brackets.
abbrev pub find_citations : String → List String
find_citations String.[] = []
find_citations (String.◌∷◌ c s) =
    with_found (citation_at (strip_prefix "[C" (String.◌∷◌ c s))) (find_citations s)

-- The map `allowed`: a later item replaces an earlier one with its id.
abbrev pub last_of : EvidenceItem → Option EvidenceItem → Bool → Option EvidenceItem
last_of item (some later) same = some later
last_of item none true = some item
last_of item none false = none

abbrev pub allowed : String → List EvidenceItem → Option EvidenceItem
allowed id [] = none
allowed id (item ∷ items) = last_of item (allowed id items) (item.citation_id == id)

abbrev pub has_text : String → List String → Bool
has_text id ids = any (λ seen. seen == id) ids

abbrev pub bracketed : String → String
bracketed id = append "[" (append id "]")

abbrev pub with_item : EvidenceItem → Result (List EvidenceItem) → Result (List EvidenceItem)
with_item item (err e) = err e
with_item item (ok items) = ok (item ∷ items)

-- `%q`, of an id without characters that it escapes.
abbrev pub quoted : String → String
quoted id = append "\"" (append id "\"")

-- One declared citation, before the `rest` of the loop, which is given whether the id was seen.
abbrev pub cite_one :
    String
    → String
    → Bool
    → Option EvidenceItem
    → Result (List EvidenceItem)
    → Result (List EvidenceItem)
cite_one id text seen none rest = err (append "candidate cites unauthorized evidence " (quoted id))
cite_one id text seen (some item) rest =
    if not (contains (bracketed id) text)
    then err (append "candidate citation " (append (quoted id) " is not present in answer text"))
    else if seen
    then rest
    else with_item item rest

-- The loop over candidate.CitationIDs, with the ids in `seen`.
unfoldable pub collect_citations :
    String → List EvidenceItem → List String → List String → Result (List EvidenceItem)
collect_citations text evidence seen [] = ok []
collect_citations text evidence seen (id ∷ ids) =
    cite_one id text (has_text id seen) (allowed id evidence)
      (collect_citations text evidence (id ∷ seen) ids)

abbrev pub undeclared : List String → String → Option String
undeclared declared text = find (λ id. not (has_text id declared)) (find_citations text)

abbrev pub declared_all : Option String → Result (List EvidenceItem) → Result (List EvidenceItem)
declared_all hidden (err e) = err e
declared_all none (ok items) = ok items
declared_all (some id) (ok items) =
    err (append "candidate text contains undeclared citation " (quoted id))

-- validateCitations
unfoldable pub validate_citations : Candidate → List EvidenceItem → Result (List EvidenceItem)
validate_citations candidate evidence = elim candidate.citation_ids [
  | [] ↦ err "candidate contains no citations"
  | id ∷ ids ↦
      declared_all (undeclared (id ∷ ids) candidate.text)
        (collect_citations candidate.text evidence [] (id ∷ ids))
]

abbrev pub uncited : Candidate → List EvidenceItem → Result (List EvidenceItem)
uncited candidate evidence = elim candidate.citation_ids [
  | [] ↦ elim (find_citations candidate.text) [
    | [] ↦ ok []
    | _ ∷ _ ↦ err "insufficient-evidence candidate contains undeclared citations"
  ]
  | _ ∷ _ ↦ validate_citations candidate evidence
]

-- validateKnowledgeCandidate
unfoldable pub validate_knowledge_candidate :
    Candidate → List EvidenceItem → Result (List EvidenceItem)
validate_knowledge_candidate candidate evidence =
    if candidate.grounding_status == "grounded"
    then validate_citations candidate evidence
    else if candidate.grounding_status == "insufficient_evidence"
    then uncited candidate evidence
    else err (
        append "knowledge candidate has invalid grounding status "
          (quoted candidate.grounding_status))

-- validateActionCandidate, with the intent whose title it trims.
unfoldable pub validate_action_candidate :
    Option ActionIntent → AgentSpec → Result (Option ActionIntent)
validate_action_candidate none spec = ok none
validate_action_candidate (some intent) spec =
    let title = trim_space intent.title in
    if not (intent.kind == "create_ticket")
    then err (append "unsupported action intent " (quoted intent.kind))
    else if not (allows_action spec intent.kind)
    then err (append "Agent version does not allow action intent " (quoted intent.kind))
    else if ltb (byte_length title) 1 || ltb 200 (byte_length title)
    then err "ticket title must be between 1 and 200 bytes"
    else ok (some (record { kind = intent.kind; title = title }))

abbrev pub ticket_title : String → Result String
ticket_title rest =
    let title = trim_space rest in
    if title == "" || ltb 200 (byte_length title)
    then err "请使用“创建工单：<1 到 200 字节标题>”补充有效标题。"
    else ok title

-- extractTicketTitle
unfoldable pub extract_ticket_title : String → Result String
extract_ticket_title content = elim (strip_prefix "创建工单：" (trim_space content)) [
  | some rest ↦ ticket_title rest
  | none ↦ elim (strip_prefix "创建工单:" (trim_space content)) [
    | some rest ↦ ticket_title rest
    | none ↦ err "创建工单需要明确命令，请使用“创建工单：<标题>”。"
  ]
]
