-- ===== src/Ingress/Log/Updates.antt =====
-- What the updates of the outbox do to the log.
use open_im.Prelude.{
  ℕ, zero, suc, String, ◌≡◌, refl, sym, ap, ◌∙◌, Bool, true, false, List, [], ◌∷◌, arith, All,
  All-map, map, any, take, select_where, count_where, update_where, update_where_none,
  if◌then◌else◌, ◌==◌, eq_iff, Bool-cases, inl, inr, ◌⊎◌, ◌&&◌,
}
use open_im.Delivery.Statements.{is_live}
use open_im.Ingress.Tables.{OutboxRow}
use open_im.Ingress.Store.{
  is_outbox_ready, is_among, lease_outbox, publish_row, release_row, holds_outbox,
}
use open_im.Ingress.Log.{Entry, is_entry, announce, is_published, entry_of, IsKeyed}

-- An update that leaves the entries of the rows that it selects.
pub map-unchanged :
    (p : OutboxRow → Bool) (f : OutboxRow → OutboxRow) (os : List OutboxRow)
    → All (λ o. p o ≡ true → entry_of (f o) ≡ entry_of o) os
    → map entry_of (update_where p f os) ≡ map entry_of os
map-unchanged p f [] h = refl
map-unchanged p f (o ∷ os) (ho, h) = kept (p o) ho (map-unchanged p f os h)
  where
    kept :
        (b : Bool)
        → (b ≡ true → entry_of (f o) ≡ entry_of o)
        → map entry_of (update_where p f os) ≡ map entry_of os
        → map entry_of ((if b then f o else o) ∷ update_where p f os) ≡ map entry_of (o ∷ os)
    kept true q e = rw (q refl, e) refl
    kept false q e = rw e refl

any-take :
    (k : OutboxRow → Bool) (n : ℕ) (os : List OutboxRow)
    → any k (take n os) ≡ true
    → any k os ≡ true
any-take k zero os h = absurd cc
any-take k (suc n) [] h = absurd cc
any-take k (suc n) (o ∷ os) h = ground (arith, any-take k n os)

any-apart :
    (id : String) (p : OutboxRow → Bool) (os : List OutboxRow)
    → All (λ (f : Entry). is_entry id f ≡ false) (map entry_of os)
    → any (λ (o : OutboxRow). o.event_id == id) (select_where p os) ≡ false
any-apart id p [] h = refl
any-apart id p (o ∷ os) (ho, h) = ground (arith, any-apart id p os h)

-- A row that has the id of a row that a claim selects is that row, and not published.
selected_unpublished :
    (locked : String → Bool) (now : ℕ) (os : List OutboxRow)
    → IsKeyed (map entry_of os)
    → All
        (λ (o : OutboxRow).
          is_among (select_where (is_outbox_ready locked now) os) o ≡ true
          → is_published o.state ≡ false)
        os
selected_unpublished locked now [] h = tt
selected_unpublished locked now (x ∷ xs) (apart, h) = (
  first (any-apart x.event_id (is_outbox_ready locked now) xs apart),
  others xs apart (selected_unpublished locked now xs h),
)
  where
    first :
        any
            (λ (o : OutboxRow). o.event_id == x.event_id)
            (select_where (is_outbox_ready locked now) xs)
          ≡ false
        → is_among (select_where (is_outbox_ready locked now) (x ∷ xs)) x ≡ true
        → is_published x.state ≡ false
    first none_other chosen = ground arith

    others :
        (os : List OutboxRow)
        → All (λ (f : Entry). is_entry x.event_id f ≡ false) (map entry_of os)
        → All
            (λ (o : OutboxRow).
              is_among (select_where (is_outbox_ready locked now) xs) o ≡ true
              → is_published o.state ≡ false)
            os
        → All
            (λ (o : OutboxRow).
              is_among (select_where (is_outbox_ready locked now) (x ∷ xs)) o ≡ true
              → is_published o.state ≡ false)
            os
    others [] a k = tt
    others (o ∷ os) (ao, a) (ko, k) = (
      λ chosen. ko (ground (arith, eq_iff o.event_id x.event_id, eq_iff x.event_id o.event_id)),
      others os a k,
    )

-- A claim leaves the log.
pub map-claim :
    (locked : String → Bool) (now limit : ℕ) (token : String) (seconds : ℕ) (os : List OutboxRow)
    → IsKeyed (map entry_of os)
    → map entry_of (
        update_where
          (is_among (take limit (select_where (is_outbox_ready locked now) os)))
          (lease_outbox now token seconds)
          os)
      ≡ map entry_of os
map-claim locked now limit token seconds os h = map-unchanged _ _ os (
    All-map _ _ os (λ o unpublished chosen. leased o (unpublished (any-take _ limit _ chosen)))
      (selected_unpublished locked now os h))
  where
    leased :
        (o : OutboxRow)
        → is_published o.state ≡ false
        → entry_of (lease_outbox now token seconds o) ≡ entry_of o
    leased o u = cc

-- A release leaves the log: what it selects is being published.
pub map-release :
    (now seconds : ℕ) (id token failure : String) (os : List OutboxRow)
    → map entry_of (update_where (holds_outbox id token) (release_row now seconds failure) os)
      ≡ map entry_of os
map-release now seconds id token failure os = map-unchanged _ _ os (each os)
  where
    released : (o : OutboxRow) → holds_outbox id token o ≡ true → is_published o.state ≡ false
    released o h = ground arith

    each :
        (os : List OutboxRow)
        → All
            (λ o.
              holds_outbox id token o ≡ true
              → entry_of (release_row now seconds failure o) ≡ entry_of o)
            os
    each [] = tt
    each (o ∷ os) = (λ h. let u = released o h in cc, each os)

announce-apart :
    (id : String) (es : List Entry)
    → All (λ (f : Entry). is_entry id f ≡ false) es
    → announce id es ≡ es
announce-apart id [] h = refl
announce-apart id (e ∷ es) (he, h) = ground (arith, announce-apart id es h)

module _ (now : ℕ) (id token : String) where
  abbrev marks : OutboxRow → Bool
  marks o = holds_outbox id token o && is_live o.lease_until now

  abbrev marked : List OutboxRow → List OutboxRow
  marked os = update_where marks (publish_row now) os

  count-apart :
      (os : List OutboxRow)
      → All (λ (f : Entry). is_entry id f ≡ false) (map entry_of os)
      → count_where marks os ≡ 0
  count-apart [] h = refl
  count-apart (o ∷ os) (ho, h) = ground (arith, count-apart os h)

  marked-apart :
      (os : List OutboxRow)
      → All (λ (f : Entry). is_entry id f ≡ false) (map entry_of os)
      → map entry_of (marked os) ≡ announce id (map entry_of os)
  marked-apart os h =
      ap (λ rows. map entry_of rows)
        (update_where_none marks (publish_row now) os (count-apart os h))
      ∙ sym (announce-apart id (map entry_of os) h)

  none_apart :
      (es : List Entry)
      → All (λ (f : Entry). is_entry id f ≡ false) es
      → any (is_entry id) es ≡ false
  none_apart [] h = refl
  none_apart (e ∷ es) (he, h) = ground (arith, none_apart es h)

  -- Marking an event announces it, or marks no row.
  pub map-publish :
      (os : List OutboxRow)
      → IsKeyed (map entry_of os)
      → (count_where marks os ≡ 0)
        ⊎ (any (is_entry id) (map entry_of os) ≡ true)
          × (map entry_of (marked os) ≡ announce id (map entry_of os))
  map-publish [] h = inl refl
  map-publish (x ∷ xs) (apart, h) = elim (Bool-cases (marks x)) [
    | inl e ↦
        let its : x.event_id ≡ id = (eq_iff x.event_id id).0 (ground arith) in
        let rest = marked-apart xs (rw its at apart) in
        inr (ground arith, rw (e, (eq_iff x.event_id id).1 its, rest) refl)
    | inr e ↦ elim (map-publish xs h) [
      | inl none_yet ↦ inl (ground arith)
      | inr (there, rest) ↦ elim (Bool-cases (x.event_id == id)) [
        | inl its ↦
            let same : x.event_id ≡ id = (eq_iff x.event_id id).0 its in
            let absent = none_apart (map entry_of xs) (rw same at apart) in absurd cc
        | inr other ↦ inr (ground arith, rw (e, other, rest) refl)
      ]
    ]
  ]
