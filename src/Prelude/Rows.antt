-- ===== src/Prelude/Rows.antt =====
-- Lookups and tests of rows under the statements that change a table.
use mathlib.Core.Path.{◌≡◌, refl, subst}
use mathlib.Core.Bool.{Bool, true, false}
use mathlib.Core.Option.{none, some}
use mathlib.Core.List
use mathlib.Core.List.{List, [], ◌∷◌, ◌++◌}
use native.Mathlib.Omega.{arith}
use mathlib.Core.Logic.{inl, inr}
use open_im.Prelude.Tests.{Bool-cases}
use open_im.Prelude.Lists.{All, All-map, any, count_where, find, update_where}

-- What an UPDATE does to a table: the rows stay in their places, those that the test selects change
-- as `R` says, and the others are as they were.
pub data Changed {ℓ} {A : Type ℓ} (p : A → Bool) (R : A → A → Type ℓ)
    : List A → List A → Type ℓ where
  no_rows : Changed p R [] []
  next_row :
      {x y : A} {xs ys : List A}
      → (p x ≡ true → R x y)
      → (p x ≡ false → y ≡ x)
      → Changed p R xs ys
      → Changed p R (x ∷ xs) (y ∷ ys)

pub update_where-Changed {ℓ} :
    {A : Type ℓ} {p : A → Bool} {R : A → A → Type ℓ} (f : A → A) (xs : List A)
    → ((x : A) → p x ≡ true → R x (f x))
    → Changed p R xs (update_where p f xs)
update_where-Changed f [] step = no_rows
update_where-Changed f (x ∷ xs) step =
    next_row (λ e. rw e (step x e)) (λ e. rw e refl) (update_where-Changed f xs step)

module _ {ℓ} {A : Type ℓ} where
  -- A narrower WHERE clause selects nothing either.
  pub count_where-narrow :
      (p q : A → Bool) (xs : List A)
      → ((x : A) → p x ≡ false → q x ≡ false)
      → count_where p xs ≡ 0
      → count_where q xs ≡ 0
  count_where-narrow p q [] narrow h = refl
  count_where-narrow p q (x ∷ xs) narrow h =
      ground (arith, narrow x, count_where-narrow p q xs narrow)

  pub any_none : (p : A → Bool) (xs : List A) → count_where p xs ≡ 0 → any p xs ≡ false
  any_none p [] h = refl
  any_none p (x ∷ xs) h = ground (arith, any_none p xs)

  -- What a lookup finds passes its test.
  pub find-true : (p : A → Bool) (xs : List A) {x : A} → find p xs ≡ some x → p x ≡ true
  find-true p [] h = absurd (ground arith)
  find-true p (y ∷ xs) {x} h = elim (Bool-cases (p y)) [
    | inl e ↦ let same : y ≡ x = ground arith in subst (λ z. p z ≡ true) same e
    | inr e ↦ find-true p xs (rw e at h)
  ]

  pub find-append_none :
      (k : A → Bool) (xs ys : List A) → find k xs ≡ none → find k (xs ++ ys) ≡ find k ys
  find-append_none k [] ys h = refl
  find-append_none k (x ∷ xs) ys h = ground (arith, find-append_none k xs ys)

module _ {ℓ} {A : Type ℓ} where
  -- `EXISTS` under the statements that change a table.
  pub any-update_where :
      (k p : A → Bool) (f : A → A) (xs : List A)
      → ((x : A) → k (f x) ≡ k x)
      → any k (update_where p f xs) ≡ any k xs
  any-update_where k p f [] same = refl
  any-update_where k p f (x ∷ xs) same = ground (arith, same x, any-update_where k p f xs same)

  pub any-append : (k : A → Bool) (xs ys : List A) → any k xs ≡ true → any k (xs ++ ys) ≡ true
  any-append k [] ys h = absurd cc
  any-append k (x ∷ xs) ys h = ground (arith, any-append k xs ys)

  pub any-append_last :
      (k : A → Bool) (xs : List A) (y : A) → k y ≡ true → any k (xs ++ y ∷ []) ≡ true
  any-append_last k [] y h = ground arith
  any-append_last k (x ∷ xs) y h = ground (arith, any-append_last k xs y h)

  pub any_of_find :
      (k q : A → Bool) (xs : List A) {x : A} → find k xs ≡ some x → q x ≡ true → any q xs ≡ true
  any_of_find k q [] h e = absurd cc
  any_of_find k q (y ∷ xs) {x} h e = ground (arith, any_of_find k q xs {x = x})

  -- Each row is among the rows.
  pub All-any :
      (r : A → A → Bool) (xs : List A)
      → ((x : A) → r x x ≡ true)
      → All (λ x. any (r x) xs ≡ true) xs
  All-any r [] same = tt
  All-any r (x ∷ xs) same = (
    ground (arith, same x),
    All-map (λ y. any (r y) xs ≡ true) (λ y. any (r y) (x ∷ xs) ≡ true) xs (λ y h. ground arith)
        (All-any r xs same),
  )

module _ {ℓ} {A : Type ℓ} where
  find_of_any : (k : A → Bool) (xs : List A) → any k xs ≡ false → find k xs ≡ none
  find_of_any k [] h = refl
  find_of_any k (x ∷ xs) h = ground (arith, find_of_any k xs)

  -- A row that is inserted where no row passes the test is the one that it finds.
  pub find-append_new :
      (k : A → Bool) (xs : List A) (y : A)
      → any k xs ≡ false
      → k y ≡ true
      → find k (xs ++ y ∷ []) ≡ some y
  find-append_new k xs y none_yet new =
      let absent = find_of_any k xs none_yet in rw (find-append_none k xs (y ∷ []) absent, new) refl

module _ {ℓ κ} {A : Type ℓ} {B : Type κ} where
  -- A column that an UPDATE leaves alone.
  pub map-update_where :
      (g : A → B) (p : A → Bool) (f : A → A) (xs : List A)
      → ((x : A) → g (f x) ≡ g x)
      → List.map g (update_where p f xs) ≡ List.map g xs
  map-update_where g p f [] same = refl
  map-update_where g p f (x ∷ xs) same = ground (arith, same x, map-update_where g p f xs same)

module _ {ℓ} {A : Type ℓ} where
  -- `EXISTS` where the update keeps the test, or makes it true of a row that it selects.
  pub any-update_where_keep :
      (q p : A → Bool) (f : A → A) (xs : List A)
      → ((x : A) → p x ≡ true → q x ≡ true → q (f x) ≡ true)
      → any q xs ≡ true
      → any q (update_where p f xs) ≡ true
  any-update_where_keep q p f [] keep h = absurd cc
  any-update_where_keep q p f (x ∷ xs) keep h =
      ground (arith, keep x, any-update_where_keep q p f xs keep)

  pub any-update_where-find :
      (k q p : A → Bool) (f : A → A) (xs : List A) {x : A}
      → find k xs ≡ some x
      → p x ≡ true
      → q (f x) ≡ true
      → any q (update_where p f xs) ≡ true
  any-update_where-find k q p f [] h e g = absurd cc
  any-update_where-find k q p f (y ∷ xs) {x} h e g = elim (Bool-cases (k y)) [
    | inl c ↦ let same : y ≡ x = ground arith in ground arith
    | inr c ↦ let rest = any-update_where-find k q p f xs {x = x} (rw c at h) e g in ground arith
  ]
