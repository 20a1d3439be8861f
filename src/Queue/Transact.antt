-- ===== src/Queue/Transact.antt =====
-- What follows from the success of a transaction: of each of its steps, and relations between the
-- tables before and after it.
use pixiv_archive.Prelude.{◌≡◌, refl, Bool, true, false, Option, none, some, ok, err, panicked}
use mathlib.Core.Path.{subst, sym}
use pixiv_archive.Job.Retry.{DbError}
use pixiv_archive.Queue.Store.{
  Documents, Units, Database, Tx, ◌>>=◌, pure, gets, or_throw, throw_if,
}

module _ ⦃J : Documents⦄ ⦃U : Units⦄ where
  -- The step before has succeeded, and what follows it has.
  pub succeeded :
      {A B : Type 0} (m : Tx A) (f : A → Tx B) {db last : Database} {b : B}
      → (m >>= f) db ≡ ok (b, last)
      → (a : A) × (next : Database) × (m db ≡ ok (a, next)) × (f a next ≡ ok (b, last))
  unfolding ◌>>=◌
  succeeded {A} m f {db = db} {last = last} {b = b} h =
      elim (m db)
          as (λ o.
            elim o [ ok r ↦ f r.0 r.1 | err e ↦ err e | panicked ↦ panicked ] ≡ ok (b, last)
            → (a : A) × (next : Database) × (o ≡ ok (a, next)) × (f a next ≡ ok (b, last))) [
              | ok r ↦ λ later. (r.0, r.1, refl, later)
              | err e ↦ λ stopped. cc
              | panicked ↦ λ stopped. cc
            ]
        h

  -- The converse.
  pub then_ok :
      {A B : Type 0} (m : Tx A) (f : A → Tx B) {db mid last : Database} {a : A} {b : B}
      → m db ≡ ok (a, mid)
      → f a mid ≡ ok (b, last)
      → (m >>= f) db ≡ ok (b, last)
  unfolding ◌>>=◌
  then_ok m f {last = last} {b = b} first later =
      subst (λ o. elim o [ ok r ↦ f r.0 r.1 | err e ↦ err e | panicked ↦ panicked ] ≡ ok (b, last))
        (sym first) later

  pub or_throw-eq-ok :
      {A : Type 0} (e : DbError) (o : Option A) {db next : Database} {a : A}
      → or_throw e o db ≡ ok (a, next)
      → (o ≡ some a) × (next ≡ db)
  unfolding or_throw
  or_throw-eq-ok e none h = cc
  or_throw-eq-ok e (some a) h = (cc, cc)

  pub pure-eq-ok :
      {A : Type 0} (a b : A) {db next : Database} → pure a db ≡ ok (b, next) → (a ≡ b) × (db ≡ next)
  unfolding pure
  pure-eq-ok a b h = (cc, cc)

  pub gets-eq-ok :
      {A : Type 0} (f : Database → A) {db next : Database} {a : A}
      → gets f db ≡ ok (a, next)
      → (f db ≡ a) × (db ≡ next)
  unfolding gets
  gets-eq-ok f h = (cc, cc)

  pub throw_if-eq-ok :
      (t : Bool) (e : DbError) {db next : Database} {a : Unit {0}}
      → throw_if t e db ≡ ok (a, next)
      → (t ≡ false) × (next ≡ db)
  unfolding throw_if
  throw_if-eq-ok true e h = cc
  throw_if-eq-ok false e h = (refl, cc)

  -- Whatever the transaction does when it succeeds is in the relation.
  pub record Relates {A : Type 0} (R : Database → Database → Type 0) (m : Tx A) : Type 0 where
    pub at : (db : Database) (a : A) (next : Database) → m db ≡ ok (a, next) → R db next
