-- ===== src/Delivery/Unique.antt =====
-- The primary key of agent.deliveries as an invariant of the table.
use open_im.Prelude.{
  String, ◌≡◌, Bool, true, false, List, [], ◌∷◌, ◌++◌, arith, ap, ◌∙◌, if◌then◌else◌, All, All-map,
  All-zip, All-select_where_of, Bool-cases, inl, inr, any, select_where, update_where, count_where,
  count-update_where, count-append, ◌==◌, eq_iff,
}
use open_im.Database.{DeliveryRow}
use open_im.Delivery.Row.{has_id, IsRow}

-- No two rows have one id.
abbrev pub HasUniqueIds : List DeliveryRow → Type 0
HasUniqueIds [] = Unit {0}
HasUniqueIds (d ∷ ds) = (count_where (has_id d.id) ds ≡ 0) × HasUniqueIds ds

pub HasUniqueIds-update :
    (p : DeliveryRow → Bool) (f : DeliveryRow → DeliveryRow)
    → ((e : DeliveryRow) → (f e).id ≡ e.id)
    → (rows : List DeliveryRow) → HasUniqueIds rows
    → HasUniqueIds (update_where p f rows)
HasUniqueIds-update p f same [] u = tt
HasUniqueIds-update p f same (d ∷ ds) (fresh, u) =
    (unchanged (p d), HasUniqueIds-update p f same ds u)
  where
    unchanged :
        (b : Bool) → count_where (has_id (if b then f d else d).id) (update_where p f ds) ≡ 0
    unchanged true =
        rw (same d)
          (count-update_where (has_id d.id) p f ds (λ e. ap (λ i. i == d.id) (same e)) ∙ fresh)
    unchanged false =
        count-update_where (has_id d.id) p f ds (λ e. ap (λ i. i == d.id) (same e)) ∙ fresh

count-snoc :
    (id : String) (row : DeliveryRow) (ds : List DeliveryRow)
    → count_where (has_id id) ds ≡ 0
    → (row.id == id) ≡ false
    → count_where (has_id id) (ds ++ row ∷ []) ≡ 0
count-snoc id row ds h n = ground (arith, count-append (has_id id) ds (row ∷ []))

pub HasUniqueIds-append :
    (row : DeliveryRow) (rows : List DeliveryRow)
    → any (has_id row.id) rows ≡ false
    → HasUniqueIds rows
    → HasUniqueIds (rows ++ row ∷ [])
HasUniqueIds-append row [] fresh u = ground arith
HasUniqueIds-append row (d ∷ ds) fresh (here, u) = (
  count-snoc d.id row ds here (ground (arith, eq_iff row.id d.id, eq_iff d.id row.id)),
  HasUniqueIds-append row ds (ground arith) u,
)

absent-misses :
    (p : DeliveryRow → Bool) (id : String) (rows : List DeliveryRow)
    → count_where (has_id id) rows ≡ 0
    → All (λ c. p c ≡ true → (id == c.id) ≡ false) rows
absent-misses p id [] h = tt
absent-misses p id (c ∷ cs) h =
    (λ _. ground (arith, eq_iff id c.id, eq_iff c.id id), absent-misses p id cs (ground arith))

row_misses :
    (p : DeliveryRow → Bool) (id : String) (d : DeliveryRow) (rows : List DeliveryRow)
    → HasUniqueIds rows
    → IsRow id d rows
    → p d ≡ false
    → All (λ c. p c ≡ true → (id == c.id) ≡ false) rows
row_misses p id d [] u h miss = tt
row_misses p id d (c ∷ cs) (fresh, u) h miss = elim (Bool-cases (has_id id c)) [
  | inl e ↦
      let same : c.id ≡ id = (eq_iff c.id id).0 e in
      let found : c ≡ d = ground arith in
      (λ pc. cc (ap p found), absent-misses p id cs (rw same at fresh))
  | inr e ↦ (
    λ _. ground (arith, eq_iff id c.id, eq_iff c.id id),
    row_misses p id d cs u (ground arith) miss,
  )
]

-- A WHERE clause that is false of the row with the id selects no row with that id.
pub misses-select :
    (p : DeliveryRow → Bool) (id : String) (d : DeliveryRow) (rows : List DeliveryRow)
    → HasUniqueIds rows
    → IsRow id d rows
    → p d ≡ false
    → All (λ c. (id == c.id) ≡ false) (select_where p rows)
misses-select p id d rows u h miss = All-select_where_of _ p rows (row_misses p id d rows u h miss)

others :
    (id : String) (rows : List DeliveryRow)
    → count_where (has_id id) rows ≡ 0
    → All (λ e. (e.id == id) ≡ false) rows
others id [] h = tt
others id (c ∷ cs) h = (ground arith, others id cs (ground arith))

selected_alone :
    (p : DeliveryRow → Bool) (rows : List DeliveryRow)
    → HasUniqueIds rows
    → All (λ c. p c ≡ true → All (λ e. (e.id == c.id) ≡ true → p e ≡ true) rows) rows
selected_alone p [] u = tt
selected_alone p (x ∷ xs) (fresh, u) = (
  λ px. (λ _. px, All-map _ _ xs (λ e n same. cc) (others x.id xs fresh)),
  All-zip _ _ _ xs
      (λ c n ih pc. (λ same. ground (arith, eq_iff x.id c.id, eq_iff c.id x.id), ih pc))
      (others x.id xs fresh) (selected_alone p xs u),
)

-- A selected row is the only one with its id, so the WHERE clause is true of all rows with it.
pub select-alone :
    (p : DeliveryRow → Bool) (rows : List DeliveryRow)
    → HasUniqueIds rows
    → All (λ c. All (λ e. (e.id == c.id) ≡ true → p e ≡ true) rows) (select_where p rows)
select-alone p rows u = All-select_where_of _ p rows (selected_alone p rows u)
