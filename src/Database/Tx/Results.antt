-- ===== src/Database/Tx/Results.antt =====
-- Inversion of a transaction that succeeds.
use open_im.Prelude.{ℕ, String, ◌≡◌, refl, arith}
use mathlib.Core.Path.{subst}
use open_im.Database.Tx
use open_im.Database.Tx.{Result, ok, err, TxOn, ◌>>=◌, pure, raise, require_one, transact}
use open_im.Database.Tx.Frame.{Keeps, After}

pub bind-eq-ok :
    {S A B : Type 0} (m : TxOn S A) (f : A → TxOn S B) (db : S) {x : B × S}
    → (m >>= f) db ≡ ok x
    → (a : A) × (db' : S) × (m db ≡ ok (a, db')) × (f a db' ≡ ok x)
bind-eq-ok {S} {A} {B} m f db {x} h = inverted (m db) refl h
  where
    inverted :
        (r : Result (A × S))
        → m db ≡ r
        → (elim r [ err e ↦ err e | ok (a, db') ↦ f a db' ]) ≡ ok x
        → (a : A) × (db' : S) × (m db ≡ ok (a, db')) × (f a db' ≡ ok x)
    inverted (ok (a, db')) e k = (a, db', e, k)
    inverted (err e') e k = cc

pub require_one-eq-ok :
    {S : Type 0} (n : ℕ) (message : String) (db : S) {x : Unit {0} × S}
    → require_one n message db ≡ ok x
    → (n ≡ 1) × (ok (tt, db) ≡ ok x)
unfolding require_one
require_one-eq-ok n message db h = ground arith

pub transact-eq-ok :
    {S A : Type 0} (m : TxOn S A) (db : S) {a : A}
    → (transact m db).0 ≡ ok a
    → (db' : S) × (m db ≡ ok (a, db')) × ((transact m db).1 ≡ db')
unfolding transact
transact-eq-ok {S} {A} m db {a} h = inverted (m db) refl h
  where
    inverted :
        (r : Result (A × S))
        → m db ≡ r
        → (Tx.finish db r).0 ≡ ok a
        → (db' : S) × (m db ≡ ok (a, db')) × ((Tx.finish db (m db)).1 ≡ db')
    inverted (ok (b, db')) e k = (db', (let p : b ≡ a = cc in cc), rw e)
    inverted (err e') e k = cc

-- What a transaction keeps holds after it succeeds.
pub kept-eq-ok :
    {S A : Type 0} {P : S → Type 0} (m : TxOn S A) (db : S) {a : A} {db' : S}
    → Keeps P m
    → P db
    → m db ≡ ok (a, db')
    → P db'
kept-eq-ok {P} m db k h e = subst (After P) e (k.at db h)

step-of-ok :
    {S A B : Type 0} (f : A → TxOn S B) {a : A} {db' : S} (r : Result (A × S))
    → r ≡ ok (a, db')
    → (elim r [ err e ↦ err e | ok (b, db) ↦ f b db ]) ≡ f a db'
step-of-ok f (ok (b, db)) h = ground arith
step-of-ok f (err e) h = absurd cc

-- A statement whose outcome is known, and the rest of the transaction.
pub bind-of-ok :
    {S A B : Type 0} (m : TxOn S A) (f : A → TxOn S B) (db : S) {a : A} {db' : S}
    → m db ≡ ok (a, db')
    → (m >>= f) db ≡ f a db'
bind-of-ok m f db h = step-of-ok f (m db) h
