-- ===== src/Delivery/Once.antt =====
-- A reply is settled once: what a successful mark says is the last word on a delivery.
use open_im.Prelude.{
  ℕ, ◌+◌, ◌*◌, ◌-◌, ◌^◌, ◌≤◌, min, suc, zero, String, ◌≡◌, ◌≢◌, refl, Bool, true, some, List, [],
  ◌∷◌, arith, eq_iff, Bool-cases, inl, inr, count_where, find-none, All-first_by, select_where-true,
  ap, Changed, no_rows, next_row, false, ◌⊎◌,
}
use mathlib.Core.Path.{subst}
use open_im.Database.{Db, DeliveryRow, RunRow}
use open_im.Database.Tx.{ok, transact}
use open_im.Delivery.Statements.{Record, holds_delivery}
use open_im.Delivery.Claim.{claim_tx, is_claimable, comes_before}
use open_im.Delivery.Marks.{Verdict, mark_sent, finish_failure}
use open_im.Delivery.Row.{has_id, IsRow}
use open_im.Delivery.Unique.{HasUniqueIds}
use open_im.Delivery.Steps.{
  Step, Reach, marking_sent, failing, AnyTime, AnyRecord, Sound, Step-Sound,
}
use open_im.Delivery.Outcomes.{Settles, BecomesLost}
use open_im.Delivery.Settlement.{mark_sent-Settles, finish_failure-Settles}
use open_im.Delivery.Finality.{is_settled, settled_never_claimed, claim_tx-candidate}
use open_im.Delivery.Worker.{backoff}

held-IsRow :
    (r : Record) (rows : List DeliveryRow)
    → HasUniqueIds rows
    → count_where (holds_delivery r) rows ≡ 1
    → (d : DeliveryRow) × IsRow r.id d rows × (holds_delivery r d ≡ true)
held-IsRow r [] u one = absurd (omega arith)
held-IsRow r (c ∷ cs) (fresh, u) one = elim (Bool-cases (holds_delivery r c)) [
  | inl e ↦ (c, ground arith, e)
  | inr e ↦
      let (d, row, held) = held-IsRow r cs u (ground arith) in
      elim (Bool-cases (has_id r.id c)) [
        | inl same ↦
            let its_id : c.id ≡ r.id = (eq_iff c.id r.id).0 same in
            absurd (cc (find-none (has_id r.id) cs (rw its_id at fresh)))
        | inr other ↦ (d, ground arith, held)
      ]
]

-- The row that an UPDATE has changed is still found by its id.
changed-IsRow :
    (id : String) (p : DeliveryRow → Bool) {D : DeliveryRow → DeliveryRow → Type 0}
    {xs ys : List DeliveryRow} (d : DeliveryRow)
    → ((x y : DeliveryRow) → D x y → y.id ≡ x.id)
    → Changed p D xs ys
    → IsRow id d xs
    → p d ≡ true
    → (e : DeliveryRow) × IsRow id e ys × D d e
changed-IsRow id p d same no_rows row held = absurd cc
changed-IsRow id p {D = D} d same (next_row {x} {y} {xs} {ys} moves stays rest) row held =
    elim (Bool-cases (has_id id x)) [
      | inl its ↦
          let is_d : x ≡ d = ground arith in
          let moved : D x y = moves (rw is_d held) in
          (y, rw (same x y moved, its) refl, subst (λ z. D z y) is_d moved)
      | inr other ↦
          let (e, found, moved) = changed-IsRow id p d same rest (rw other at row) held in
          (e, rw (unlike other (Bool-cases (p x))) found, moved)
    ]
  where
    unlike : has_id id x ≡ false → ((p x ≡ true) ⊎ (p x ≡ false)) → has_id id y ≡ false
    unlike other (inl e) = rw (same x y (moves e)) other
    unlike other (inr e) = rw (stays e) other

settled-IsRow :
    (r : Record) {D : DeliveryRow → DeliveryRow → Type 0} {R : RunRow → RunRow → Type 0} (s t : Db)
    → ((x y : DeliveryRow) → D x y → y.id ≡ x.id)
    → HasUniqueIds s.deliveries
    → Settles r D R s t
    → (d : DeliveryRow) × (e : DeliveryRow) × IsRow r.id e t.deliveries × D d e
settled-IsRow r s t same u change =
    let (d, row, held) = held-IsRow r s.deliveries u change.one_delivery in
    let (e, found, moved) = changed-IsRow r.id (holds_delivery r) d same change.delivery row held in
    (d, e, found, moved)

module _ (max_attempts : ℕ) (r : Record) (s t : Db) (locked : String → Bool) (token : String)
    (lease later : ℕ) (again : Record) where
  -- After MarkSent has succeeded for a record, no claim, after any transactions whatever, returns
  -- that delivery: a reply that was sent is not sent again.
  pub sent_once :
      (sha256_hex : String → String) (now : ℕ) (external : String)
      → Sound max_attempts s
      → (mark_sent sha256_hex now r external s).0 ≡ ok tt
      → Reach max_attempts AnyTime AnyRecord (mark_sent sha256_hex now r external s).1 t
      → (transact (claim_tx locked token lease max_attempts later) t).0 ≡ ok (some again)
      → again.id ≢ r.id
  sent_once sha256_hex now external sound done reach claimed =
      let (d, e, row, is_sent) =
        settled-IsRow r s _ (λ x y moved. moved.id) sound.unique
          (mark_sent-Settles sha256_hex now r external s done) in
      let st : Step max_attempts AnyTime AnyRecord s (mark_sent sha256_hex now r external s).1 =
        marking_sent sha256_hex now r external tt s in
      settled_never_claimed max_attempts r.id e locked token lease later again
        (rw is_sent.state refl) (Step-Sound max_attempts st sound) row reach claimed

  -- After finishFailure has succeeded for a record, with an outcome that failed or that nobody
  -- knows, no claim returns that delivery: an uncertain reply is not sent again.
  pub unknown_once :
      (now : ℕ) (verdict : Verdict) (failure event_type : String)
      → Sound max_attempts s
      → (finish_failure now r verdict failure event_type s).0 ≡ ok tt
      → Reach max_attempts AnyTime AnyRecord (finish_failure now r verdict failure event_type s).1 t
      → (transact (claim_tx locked token lease max_attempts later) t).0 ≡ ok (some again)
      → again.id ≢ r.id
  unknown_once now verdict failure event_type sound done reach claimed =
      let (d, e, row, is_lost) =
        settled-IsRow r s _ (λ x y moved. moved.id) sound.unique
          (finish_failure-Settles now r verdict failure event_type s done) in
      let st : Step max_attempts AnyTime AnyRecord s
          (finish_failure now r verdict failure event_type s).1 =
        failing now r verdict failure event_type tt s in
      settled_never_claimed max_attempts r.id e locked token lease later again
        (verdict_settled verdict d e is_lost) (Step-Sound max_attempts st sound) row reach claimed
    where
      verdict_settled :
          (v : Verdict) (d e : DeliveryRow)
          → BecomesLost r v failure d e
          → is_settled e.state ≡ true
      verdict_settled Verdict.failed d e lost = rw (lost.fails refl) refl
      verdict_settled Verdict.uncertain d e lost = rw (lost.unknown refl) refl

shift_bounds : (k : ℕ) → k ≤ 5 → (1 ≤ 2 ^ k) × (2 ^ k ≤ 32)
shift_bounds zero h = omega arith
shift_bounds (suc zero) h = omega arith
shift_bounds (suc (suc zero)) h = omega arith
shift_bounds (suc (suc (suc zero))) h = omega arith
shift_bounds (suc (suc (suc (suc zero)))) h = omega arith
shift_bounds (suc (suc (suc (suc (suc zero))))) h = omega arith
shift_bounds (suc (suc (suc (suc (suc (suc k)))))) h = absurd (omega arith)

-- A claimed record has had between one and the allowed number of attempts, so the delay before a
-- retry is a shift by a number that is not negative, and lies between one second and 32 seconds.
pub claimed_backoff :
    (locked : String → Bool) (token : String) (lease max_attempts now : ℕ) (db : Db) (r : Record)
    → (transact (claim_tx locked token lease max_attempts now) db).0 ≡ ok (some r)
    → (1 ≤ r.attempts)
      × (r.attempts ≤ max_attempts)
      × ((delay : ℕ) × (backoff r.attempts ≡ some delay)
          × (1_000_000_000 ≤ delay)
          × (delay ≤ 32_000_000_000))
unfolding backoff
claimed_backoff locked token lease max_attempts now db r h =
    let (c, chosen, shape) = claim_tx-candidate locked token lease max_attempts now db r h in
    let due : is_claimable db locked max_attempts now c ≡ true =
      All-first_by _ comes_before _
        (select_where-true (is_claimable db locked max_attempts now) db.deliveries) chosen in
    let counted : r.attempts ≡ c.attempts + 1 = ap (λ (x : Record). x.attempts) shape in
    let (low, high) = shift_bounds (min (r.attempts - 1) 5) (omega arith) in
    (
      omega arith,
      ground arith,
      (1_000_000_000 * 2 ^ min (r.attempts - 1) 5, ground arith, omega arith, omega arith),
    )
