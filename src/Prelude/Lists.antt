-- ===== src/Prelude/Lists.antt =====
-- Lists measured by native numbers, and the tables' row operations with their laws.
use Prim.Native.Nat.{ℕ, zero, suc, ◌+◌}
use mathlib.Core.Path.{◌≡◌, refl, subst}
use mathlib.Core.Bool.{Bool, true, false, ◌&&◌, ◌||◌}
use mathlib.Core.Option
use mathlib.Core.Option.{Option, none, some}
use mathlib.Core.List.{List, [], ◌∷◌, ◌++◌}
use native.Mathlib.Omega.{arith}
use mathlib.Core.Logic.{inl, inr}
use open_im.Prelude.Tests.{if◌then◌else◌, Bool-cases}

module _ {ℓ} {A : Type ℓ} where
  abbrev pub length : List A → ℕ
  length [] = 0
  length (x ∷ xs) = suc (length xs)

  abbrev pub take : ℕ → List A → List A
  take zero xs = []
  take (suc n) [] = []
  take (suc n) (x ∷ xs) = x ∷ take n xs

  abbrev pub all : (A → Bool) → List A → Bool
  all p [] = true
  all p (x ∷ xs) = p x && all p xs

  abbrev pub any : (A → Bool) → List A → Bool
  any p [] = false
  any p (x ∷ xs) = p x || any p xs

  -- SQL's UPDATE … SET f WHERE p.
  abbrev pub update_where : (A → Bool) → (A → A) → List A → List A
  update_where p f [] = []
  update_where p f (x ∷ xs) = (if p x then f x else x) ∷ update_where p f xs

  -- The rows that a WHERE clause selects, and how many they are.
  abbrev pub select_where : (A → Bool) → List A → List A
  select_where p [] = []
  select_where p (x ∷ xs) = let rest = select_where p xs in if p x then x ∷ rest else rest

  abbrev pub count_where : (A → Bool) → List A → ℕ
  count_where p [] = 0
  count_where p (x ∷ xs) = let rest = count_where p xs in if p x then suc rest else rest

  abbrev pub find : (A → Bool) → List A → Option A
  find p [] = none
  find p (x ∷ xs) = let rest = find p xs in if p x then some x else rest

  -- ORDER BY … LIMIT 1: the earliest row of the table among the least.
  abbrev pub earlier : (A → A → Bool) → A → Option A → Option A
  earlier before x none = some x
  earlier before x (some y) = if before y x then some y else some x

  abbrev pub first_by : (A → A → Bool) → List A → Option A
  first_by before [] = none
  first_by before (x ∷ xs) = earlier before x (first_by before xs)

module _ {ℓ κ} {A : Type ℓ} (P : A → Type κ) where
  abbrev pub All : List A → Type κ
  All [] = Unit
  All (x ∷ xs) = P x × All xs

module _ {ℓ κ} {A : Type ℓ} (P : A → Type κ) where
  pub All-append : (xs ys : List A) → All P xs → All P ys → All P (xs ++ ys)
  All-append [] ys h k = k
  All-append (x ∷ xs) ys (p, h) k = (p, All-append xs ys h k)

  pub All-update_where :
      (p : A → Bool) (f : A → A) (xs : List A)
      → ((x : A) → p x ≡ true → P x → P (f x))
      → All P xs
      → All P (update_where p f xs)
  All-update_where p f [] step h = tt
  All-update_where p f (x ∷ xs) step (px, h) =
      (All-update_one (p x) refl, All-update_where p f xs step h)
    where
      All-update_one : (b : Bool) → p x ≡ b → P (if b then f x else x)
      All-update_one true e = step x e px
      All-update_one false e = px

  pub All-update_where_of :
      (p : A → Bool) (f : A → A) (xs : List A)
      → All (λ x. p x ≡ true → P (f x)) xs
      → All P xs
      → All P (update_where p f xs)
  All-update_where_of p f [] step h = tt
  All-update_where_of p f (x ∷ xs) (sx, step) (px, h) =
      (updated (p x) sx, All-update_where_of p f xs step h)
    where
      updated : (b : Bool) → (b ≡ true → P (f x)) → P (if b then f x else x)
      updated true q = q refl
      updated false q = px

  -- What the WHERE clause says of a row holds of the selected rows.
  pub All-select_where_of :
      (p : A → Bool) (xs : List A) → All (λ x. p x ≡ true → P x) xs → All P (select_where p xs)
  All-select_where_of p [] h = tt
  All-select_where_of p (x ∷ xs) (px, h) = selected (p x) px (All-select_where_of p xs h)
    where
      selected :
          (b : Bool)
          → (b ≡ true → P x)
          → All P (select_where p xs)
          → All P (if b then x ∷ select_where p xs else select_where p xs)
      selected true q rest = (q refl, rest)
      selected false q rest = rest

  pub All-select_where : (p : A → Bool) (xs : List A) → All P xs → All P (select_where p xs)
  All-select_where p [] h = tt
  All-select_where p (x ∷ xs) (px, h) = All-select_one (p x) (All-select_where p xs h)
    where
      All-select_one :
          (b : Bool)
          → All P (select_where p xs)
          → All P (if b then x ∷ select_where p xs else select_where p xs)
      All-select_one true rest = (px, rest)
      All-select_one false rest = rest

module _ {ℓ κ μ} {A : Type ℓ} (P : A → Type κ) (Q : A → Type μ) where
  pub All-map : (xs : List A) → ((x : A) → P x → Q x) → All P xs → All Q xs
  All-map [] f h = tt
  All-map (x ∷ xs) f (px, h) = (f x px, All-map xs f h)

module _ {ℓ κ μ ν} {A : Type ℓ} (P : A → Type κ) (Q : A → Type μ) (R : A → Type ν) where
  pub All-zip : (xs : List A) → ((x : A) → P x → Q x → R x) → All P xs → All Q xs → All R xs
  All-zip [] f h k = tt
  All-zip (x ∷ xs) f (px, h) (qx, k) = (f x px qx, All-zip xs f h k)

module _ {ℓ} {A : Type ℓ} where
  pub update_where_none :
      (p : A → Bool) (f : A → A) (xs : List A) → count_where p xs ≡ 0 → update_where p f xs ≡ xs
  update_where_none p f [] h = refl
  update_where_none p f (x ∷ xs) h = ground (arith, update_where_none p f xs)

  -- An update that leaves the keyed test alone is seen through a lookup.
  pub find-update_where :
      (k p : A → Bool) (f : A → A) (xs : List A)
      → ((x : A) → k (f x) ≡ k x)
      → find k (update_where p f xs) ≡ Option.map (λ x. if p x then f x else x) (find k xs)
  find-update_where k p f [] same = refl
  find-update_where k p f (x ∷ xs) same = ground (arith, same x, find-update_where k p f xs same)

  pub count-update_where :
      (k p : A → Bool) (f : A → A) (xs : List A)
      → ((x : A) → k (f x) ≡ k x)
      → count_where k (update_where p f xs) ≡ count_where k xs
  count-update_where k p f [] same = refl
  count-update_where k p f (x ∷ xs) same = ground (arith, same x, count-update_where k p f xs same)

  pub find-append :
      (k : A → Bool) (xs ys : List A) {x : A} → find k xs ≡ some x → find k (xs ++ ys) ≡ some x
  find-append k [] ys h = ground arith
  find-append k (y ∷ xs) ys {x} h = ground (arith, find-append k xs ys {x = x})

  pub count-append :
      (k : A → Bool) (xs ys : List A)
      → count_where k (xs ++ ys) ≡ count_where k xs + count_where k ys
  count-append k [] ys = omega arith
  count-append k (x ∷ xs) ys = ground (arith, count-append k xs ys)

  pub count_of_any : (k : A → Bool) (xs : List A) → any k xs ≡ false → count_where k xs ≡ 0
  count_of_any k [] h = refl
  count_of_any k (x ∷ xs) h = ground (arith, count_of_any k xs)

  -- The row that ORDER BY … LIMIT 1 gives is one of the rows.
  pub All-first_by {κ} :
      (P : A → Type κ) (before : A → A → Bool) (xs : List A) {x : A}
      → All P xs
      → first_by before xs ≡ some x
      → P x
  All-first_by P before [] h e = absurd (ground arith)
  All-first_by P before (y ∷ xs) {x} (py, h) e =
      All-first_one (first_by before xs) (λ z. All-first_by P before xs {x = z} h) e
    where
      All-first_one :
          (o : Option A) → ((z : A) → o ≡ some z → P z) → earlier before y o ≡ some x → P x
      All-first_one none ih e' = let q : y ≡ x = cc in subst P q py
      All-first_one (some z) ih e' = elim (Bool-cases (before z y)) [
        | inl c ↦ let q : z ≡ x = ground arith in subst P q (ih z refl)
        | inr c ↦ let q : y ≡ x = ground arith in subst P q py
      ]

  pub find-none : (k : A → Bool) (xs : List A) → count_where k xs ≡ 0 → find k xs ≡ none
  find-none k [] h = refl
  find-none k (x ∷ xs) h = ground (arith, find-none k xs)

  All-self : (p : A → Bool) (ys : List A) → All (λ x. p x ≡ true → p x ≡ true) ys
  All-self p [] = tt
  All-self p (y ∷ ys) = (λ h. h, All-self p ys)

  -- Every selected row passes the WHERE clause.
  pub select_where-true : (p : A → Bool) (xs : List A) → All (λ x. p x ≡ true) (select_where p xs)
  select_where-true p xs = All-select_where_of (λ x. p x ≡ true) p xs (All-self p xs)
