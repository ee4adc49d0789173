-- ===== src/World/Inversion.antt =====
-- What a successful action says of its parts.
use crynux_relay_wallet.Base.{◌≡◌, refl, ap, ◌∙◌, arith}
use crynux_relay_wallet.World.{
  restore, call_with, Error, Db, World, Result, ok, err, Action, pure, ◌>>=◌, ◌>>◌, continue,
  db_call, atomic,
}

continue-ok :
    {A B : Type 0} (p : Result A × World) (f : A → Action B) {b : B}
    → (continue p f).0 ≡ ok b
    → (a : A) × (p.0 ≡ ok a) × ((f a p.1).0 ≡ ok b) × (continue p f ≡ f a p.1)
continue-ok (ok a, w) f h = (a, refl, h, refl)
continue-ok (err e, w) f h = cc

pub bind-ok :
    {A B : Type 0} (m : Action A) (f : A → Action B) (w : World) {b : B}
    → ((m >>= f) w).0 ≡ ok b
    → (a : A) × ((m w).0 ≡ ok a) × ((f a (m w).1).0 ≡ ok b) × ((m >>= f) w ≡ f a (m w).1)
bind-ok m f w h = continue-ok (m w) f h

pub db_call-db : (w : World) → (db_call w).1.db ≡ w.db
unfolding db_call call_with
db_call-db w = ground arith

restore-ok :
    {A : Type 0} (db : Db) (p : Result A × World) {a : A}
    → (restore db p).0 ≡ ok a
    → (p.0 ≡ ok a) × (restore db p ≡ p)
unfolding restore
restore-ok db (ok a, w) h = (h, refl)
restore-ok db (err e, w) h = cc

restore-err :
    {A : Type 0} (db : Db) (p : Result A × World) {e : Error}
    → (restore db p).0 ≡ err e
    → (restore db p).1.db ≡ db
unfolding restore
restore-err db (ok a, w) h = cc
restore-err db (err e, w) h = refl

commit-ok :
    {A : Type 0} (b : A) (w : World) {a : A}
    → ((db_call >> pure b) w).0 ≡ ok a
    → (b ≡ a) × (((db_call >> pure b) w).1.db ≡ w.db)
unfolding db_call call_with
commit-ok b w h = ground arith

-- A transaction that succeeds has done its body.
pub atomic-ok :
    {A : Type 0} (m : Action A) (w : World) {a : A}
    → (atomic m w).0 ≡ ok a
    → ((m w).0 ≡ ok a) × ((atomic m w).1.db ≡ (m w).1.db)
unfolding atomic
atomic-ok m w {a} h =
    let (r, same) = restore-ok w.db ((do a ← m; db_call; pure a) w) h in
    let (b, ran, committed, q) = bind-ok m (λ a. (do db_call; pure a)) w r in
    let (same_value, same_db) = commit-ok b (m w).1 committed in
    (ran ∙ ap ok same_value, ap (λ p. p.1.db) same ∙ ap (λ p. p.1.db) q ∙ same_db)

-- A transaction that fails leaves the tables as they were.
pub atomic-err :
    {A : Type 0} (m : Action A) (w : World) {e : Error}
    → (atomic m w).0 ≡ err e
    → (atomic m w).1.db ≡ w.db
unfolding atomic
atomic-err m w h = restore-err w.db ((do a ← m; db_call; pure a) w) h
