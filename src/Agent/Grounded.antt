-- ===== src/Agent/Grounded.antt =====
-- What validateCitations of internal/agent/worker.go accepts.
use open_im.Prelude.{
  String, ◌≡◌, ◌∙◌, ◌⊎◌, refl, Bool, true, false, Option, none, some, List, [], ◌∷◌, arith, All,
  All-map, any, find, not, ◌==◌, eq_iff, Bool-cases, inl, inr, sym, ap,
}
use mathlib.Core.Path.{subst}
use open_im.Database.Tx.{Result, ok, err}
use open_im.Agent.Run.{Candidate, EvidenceItem}
use open_im.Agent.Grounding.{
  contains, find_citations, allowed, last_of, has_text, bracketed, cite_one, with_item,
  collect_citations, undeclared, declared_all, validate_citations,
}

allowed-named :
    (id : String) (evidence : List EvidenceItem) {item : EvidenceItem}
    → allowed id evidence ≡ some item
    → item.citation_id ≡ id
allowed-named id [] h = absurd cc
allowed-named id (e ∷ es) {item} h =
    latest (allowed id es) (λ later k. allowed-named id es {item = later} k) h
  where
    latest :
        (o : Option EvidenceItem)
        → ((later : EvidenceItem) → o ≡ some later → later.citation_id ≡ id)
        → last_of e o (e.citation_id == id) ≡ some item
        → item.citation_id ≡ id
    latest (some later) k h' =
        let same : later ≡ item = cc in
        ap (λ (x : EvidenceItem). x.citation_id) (sym same) ∙ k later refl
    latest none k h' = ground (arith, eq_iff e.citation_id id)

-- An item that was provided under its own id, and whose citation stands in the text.
pub record IsCited (text : String) (evidence : List EvidenceItem) (e : EvidenceItem) : Type 0 where
  pub provided : allowed e.citation_id evidence ≡ some e
  pub present : contains (bracketed e.citation_id) text ≡ true

abbrev pub is_covered : List EvidenceItem → String → Bool
is_covered items id = any (λ (e : EvidenceItem). e.citation_id == id) items

cite_one-eq-ok :
    (id text : String) (seen : Bool) (o : Option EvidenceItem) (rest : Result (List EvidenceItem))
    {items : List EvidenceItem}
    → cite_one id text seen o rest ≡ ok items
    → (item : EvidenceItem) × (o ≡ some item)
      × (contains (bracketed id) text ≡ true)
      × (((seen ≡ true) × (rest ≡ ok items))
          ⊎ ((seen ≡ false)
              × ((later : List EvidenceItem) × (rest ≡ ok later) × (items ≡ item ∷ later))))
cite_one-eq-ok id text seen none rest h = absurd cc
cite_one-eq-ok id text seen (some item) rest {items} h =
    elim (Bool-cases (contains (bracketed id) text)) [
      | inr absent ↦ absurd (cc (rw absent at h))
      | inl here ↦ elim (Bool-cases seen) [
        | inl old ↦ (item, refl, here, inl (old, ground arith))
        | inr fresh ↦ (item, refl, here, inr (fresh, added rest (rw (here, fresh) at h)))
      ]
    ]
  where
    added :
        (r : Result (List EvidenceItem))
        → with_item item r ≡ ok items
        → (later : List EvidenceItem) × (r ≡ ok later) × (items ≡ item ∷ later)
    added (ok later) k = (later, refl, cc)
    added (err e) k = absurd cc

module _ (text : String) (evidence : List EvidenceItem) where
  collect-IsCited :
      (seen ids : List String) {items : List EvidenceItem}
      → collect_citations text evidence seen ids ≡ ok items
      → All (IsCited text evidence) items
        × All (λ id. has_text id seen ≡ false → is_covered items id ≡ true) ids
  unfolding collect_citations
  collect-IsCited seen [] {items} h =
      let none_left : [] ≡ items = cc in (subst (All (IsCited text evidence)) none_left tt, tt)
  collect-IsCited seen (id ∷ ids) {items} h =
      let (item, found, here, more) =
        cite_one-eq-ok id text (has_text id seen) (allowed id evidence)
          (collect_citations text evidence (id ∷ seen) ids) h in
      let named = allowed-named id evidence found in
      elim more [
        | inl (old, same) ↦
            let (cited, covered) = collect-IsCited (id ∷ seen) ids same in
            (
              cited,
              (
                (λ fresh. absurd (cc old)),
                All-map _ _ ids (λ other covers fresh. covers (ground (arith, eq_iff id other)))
                    covered,
              ),
            )
        | inr (fresh, (later, same, is_items)) ↦
            let (cited, covered) = collect-IsCited (id ∷ seen) ids same in
            (
              subst (All (IsCited text evidence)) (sym is_items)
                  (record { provided = rw named found; present = rw named here }, cited),
              (
                (λ _. rw (is_items, named) (ground (arith, eq_iff id id))),
                All-map _ _ ids
                    (λ other covers unseen. rw (is_items, named) (ground (arith, covers))) covered,
              ),
            )
      ]

has-covered :
    (items : List EvidenceItem) (id : String) (ids : List String)
    → All (λ declared. has_text declared [] ≡ false → is_covered items declared ≡ true) ids
    → has_text id ids ≡ true
    → is_covered items id ≡ true
has-covered items id [] covered h = absurd cc
has-covered items id (declared ∷ ids) (covers, covered) h =
    ground (arith, eq_iff declared id, covers refl, has-covered items id ids covered)

declared-All :
    (declared cites : List String)
    → find (λ id. not (has_text id declared)) cites ≡ none
    → All (λ id. has_text id declared ≡ true) cites
declared-All declared [] h = tt
declared-All declared (id ∷ ids) h = (ground arith, declared-All declared ids (ground arith))

-- What validateCitations accepts is grounded: each item that it returns was provided as evidence
-- under its id and its citation stands in the answer, and each citation that stands in the answer
-- is of an item that it returns.
pub validate_citations-IsCited :
    (candidate : Candidate) (evidence items : List EvidenceItem)
    → validate_citations candidate evidence ≡ ok items
    → All (IsCited candidate.text evidence) items
      × All (λ id. is_covered items id ≡ true) (find_citations candidate.text)
unfolding validate_citations
validate_citations-IsCited candidate evidence items h = accepted candidate.citation_ids h
  where
    accepted_one :
        (ids : List String) (r : Result (List EvidenceItem)) (hidden : Option String)
        → declared_all hidden r ≡ ok items
        → (r ≡ ok items) × (hidden ≡ none)
    accepted_one ids (err e) hidden k = absurd cc
    accepted_one ids (ok found) none k = (k, refl)
    accepted_one ids (ok found) (some id) k = absurd cc

    accepted :
        (ids : List String)
        → elim ids [
          | [] ↦ err "candidate contains no citations"
          | id ∷ rest ↦
              declared_all
                (undeclared (id ∷ rest) candidate.text)
                (collect_citations candidate.text evidence [] (id ∷ rest))
        ]
          ≡ ok items
        → All (IsCited candidate.text evidence) items
          × All (λ id. is_covered items id ≡ true) (find_citations candidate.text)
    accepted [] k = absurd cc
    accepted (id ∷ rest) k =
        let (collected, whole) = accepted_one (id ∷ rest) _ _ k in
        let (cited, covered) = collect-IsCited candidate.text evidence [] (id ∷ rest) collected in
        (
          cited,
          All-map _ _ (find_citations candidate.text)
              (λ c declared. has-covered items c (id ∷ rest) covered declared)
              (declared-All (id ∷ rest) (find_citations candidate.text) whole),
        )
