-- ===== src/Effects.antt =====
-- A function that reads and writes the database and may raise. What was written before a raise
-- stays in the session, so the database comes back beside an exception too.
use enterprise_data_access_a.Base.{
  Bool, true, false, Option, none, some, Exception, Result, ok, err, ◌≡◌, refl,
}
use enterprise_data_access_a.Models.{Db}

abbrev pub Action : Type 0 → Type 0
Action A = Db → Result A × Db

module _ {A : Type 0} where
  abbrev pub pure : A → Action A
  pure a db = (ok a, db)

  abbrev pub raise : Exception → Action A
  raise e db = (err e, db)

  abbrev pub lift : Result A → Action A
  lift r db = (r, db)

  abbrev pub gets : (Db → A) → Action A
  gets f db = (ok (f db), db)

  -- `if x is None: raise e`
  abbrev pub or_raise : Option A → Exception → Action A
  or_raise none e db = (err e, db)
  or_raise (some a) e db = (ok a, db)

abbrev pub modify : (Db → Db) → Action (Unit {0})
modify f db = (ok tt, f db)

abbrev pub fail_if : Bool → Exception → Action (Unit {0})
fail_if true e db = (err e, db)
fail_if false e db = (ok tt, db)

-- What follows a step that returned.
abbrev pub continue : {A B : Type 0} → Result A × Db → (A → Action B) → Result B × Db
continue (ok a, db) f = f a db
continue (err e, db) f = (err e, db)

infixl 5 ◌>>=◌ ◌>>◌
abbrev pub ◌>>=◌ : {A B : Type 0} → Action A → (A → Action B) → Action B
◌>>=◌ m f db = continue (m db) f

abbrev pub ◌>>◌ : {A B : Type 0} → Action A → Action B → Action B
m >> k = m >>= λ _. k

-- What holds of the database after a step that only reads, and after what follows it.
module _ {A B : Type 0} (P : Db → Type 0) where
  pub after_lift :
      (r : Result A) (f : A → Action B) (db : Db)
      → P db
      → ((a : A) → r ≡ ok a → P (f a db).1)
      → P (continue (lift r db) f).1
  after_lift (ok a) f db h k = k a refl
  after_lift (err e) f db h k = h

module _ {B : Type 0} (P : Db → Type 0) where
  pub after_fail_if :
      (b : Bool) (e : Exception) (f : Unit {0} → Action B) (db : Db)
      → P db
      → (b ≡ false → P (f tt db).1)
      → P (continue (fail_if b e db) f).1
  after_fail_if true e f db h k = h
  after_fail_if false e f db h k = k refl

-- A step behind which the database does not change.
pub continue-same :
    {A B : Type 0} (r : Result A × Db) (f : A → Action B)
    → ((a : A) (db : Db) → (f a db).1 ≡ db)
    → (continue r f).1 ≡ r.1
continue-same (ok a, db) f same = same a db
continue-same (err e, db) f same = refl

pub fail_if-same : (b : Bool) (e : Exception) (db : Db) → (fail_if b e db).1 ≡ db
fail_if-same true e db = refl
fail_if-same false e db = refl

-- A route: what it raises rolls the session back, what it returns is committed.
abbrev pub settle : {A : Type 0} → Db → Result A × Db → Result A × Db
settle before (ok a, db) = (ok a, db)
settle before (err e, db) = (err e, before)

abbrev pub transaction : {A : Type 0} → Action A → Action A
transaction m db = settle db (m db)

-- What a step and what follows it leave, by a relation that composes.
pub continue-rel :
    {A B : Type 0} (R : Db → Db → Type 0)
    → ((x y z : Db) → R x y → R y z → R x z)
    → (r : Result A × Db) (f : A → Action B) (db : Db) → R db r.1
    → ((a : A) → r.0 ≡ ok a → R r.1 (f a r.1).1)
    → R db (continue r f).1
continue-rel R trans (ok a, d) f db h k = trans db d (f a d).1 h (k a refl)
continue-rel R trans (err e, d) f db h k = h

-- Inversion of a step that returned, and of what followed it.
pub continue-ok :
    {A B : Type 0} (r : Result A × Db) (f : A → Action B) {b : B}
    → (continue r f).0 ≡ ok b
    → (a : A) × (r.0 ≡ ok a) × ((f a r.1).0 ≡ ok b) × ((continue r f).1 ≡ (f a r.1).1)
continue-ok (ok a, d) f h = (a, refl, h, refl)
continue-ok (err e, d) f h = absurd (cc)

-- The same for the whole outcome.
pub continue-eq-ok :
    {A B : Type 0} (r : Result A × Db) (f : A → Action B) {b : B} {d : Db}
    → continue r f ≡ (ok b, d)
    → (a : A) × (e : Db) × (r ≡ (ok a, e)) × (f a e ≡ (ok b, d))
continue-eq-ok (ok a, e) f h = (a, e, refl, h)
continue-eq-ok (err x, e) f h = absurd (cc)

pub fail_if-passed :
    {B : Type 0} (b : Bool) (e : Exception) (f : Unit {0} → Action B) (db : Db) {r : B} {d : Db}
    → continue (fail_if b e db) f ≡ (ok r, d)
    → (b ≡ false) × (f tt db ≡ (ok r, d))
fail_if-passed true e f db h = absurd (cc)
fail_if-passed false e f db h = (refl, h)

pub or_raise-found :
    {A B : Type 0} (o : Option A) (e : Exception) (f : A → Action B) (db : Db) {r : B} {d : Db}
    → continue (or_raise o e db) f ≡ (ok r, d)
    → (a : A) × (o ≡ some a) × (f a db ≡ (ok r, d))
or_raise-found none e f db h = absurd (cc)
or_raise-found (some a) e f db h = (a, refl, h)

-- A check that passes.
pub fail_if-passes :
    {B : Type 0} (b : Bool) (e : Exception) (f : Unit {0} → Action B) (db : Db)
    → b ≡ false
    → continue (fail_if b e db) f ≡ f tt db
fail_if-passes true e f db h = absurd (cc)
fail_if-passes false e f db h = refl
