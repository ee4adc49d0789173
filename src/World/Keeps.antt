-- ===== src/World/Keeps.antt =====
-- A property of the database that an action leaves true while it tells nobody anything, with a rule
-- for each way to build an action.
use crynux_relay_wallet.Base.{◌≡◌, refl, ◌∙◌, Bool, true, false, List, [], ◌∷◌, if◌then◌else◌}
use crynux_relay_wallet.World.{
  Db, World, Result, ok, err, Action, pure, raise, gets, ◌>>=◌, ◌>>◌, continue, modify, db_call,
  atomic,
}
use crynux_relay_wallet.Errors.{Error}
use crynux_relay_wallet.World.{call_with, restore}

pub record Keeps {A : Type 0} (P : Db → Type 0) (m : Action A) : Type 0 where
  pub at : (w : World) → P w.db → P (m w).1.db
  pub quiet : (w : World) → (m w).1.sent ≡ w.sent

keep_restore :
    {A : Type 0} (P : Db → Type 0) (db : Db) (p : Result A × World)
    → P db
    → P p.1.db
    → P (restore db p).1.db
unfolding restore
keep_restore P db (ok a, w) h k = k
keep_restore P db (err e, w) h k = h

quiet_restore : {A : Type 0} (db : Db) (p : Result A × World) → (restore db p).1.sent ≡ p.1.sent
unfolding restore
quiet_restore db (ok a, w) = refl
quiet_restore db (err e, w) = refl

module _ {P : Db → Type 0} where
  pub Keeps-pure : {A : Type 0} (a : A) → Keeps P (pure a)
  Keeps-pure a = record { at = λ w h. h; quiet = λ w. refl }

  pub Keeps-raise : {A : Type 0} (e : Error) → Keeps P (raise {A = A} e)
  Keeps-raise e = record { at = λ w h. h; quiet = λ w. refl }

  pub Keeps-gets : {A : Type 0} (f : World → A) → Keeps P (gets f)
  Keeps-gets f = record { at = λ w h. h; quiet = λ w. refl }

  pub Keeps-modify : (f : Db → Db) → ((db : Db) → P db → P (f db)) → Keeps P (modify f)
  Keeps-modify f h = record { at = λ w p. h w.db p; quiet = λ w. refl }

  Keeps-continue :
      {A B : Type 0} (p : Result A × World) (f : A → Action B)
      → ((a : A) → Keeps P (f a))
      → P p.1.db
      → P (continue p f).1.db
  Keeps-continue (ok a, w) f k h = (k a).at w h
  Keeps-continue (err e, w) f k h = h

  quiet_continue :
      {A B : Type 0} (p : Result A × World) (f : A → Action B)
      → ((a : A) → Keeps P (f a))
      → (continue p f).1.sent ≡ p.1.sent
  quiet_continue (ok a, w) f k = (k a).quiet w
  quiet_continue (err e, w) f k = refl

  pub Keeps-bind :
      {A B : Type 0} {m : Action A} {f : A → Action B}
      → Keeps P m
      → ((a : A) → Keeps P (f a))
      → Keeps P (m >>= f)
  Keeps-bind {m} {f} km kf = record {
    at = λ w h. Keeps-continue (m w) f kf (km.at w h);
    quiet = λ w. quiet_continue (m w) f kf ∙ km.quiet w;
  }

  pub Keeps-then :
      {B : Type 0} {m : Action (Unit {0})} {k : Action B} → Keeps P m → Keeps P k → Keeps P (m >> k)
  Keeps-then km kk = Keeps-bind km (λ _. kk)

  pub Keeps-if :
      {A : Type 0} (b : Bool) {m k : Action A}
      → Keeps P m
      → Keeps P k
      → Keeps P (if b then m else k)
  Keeps-if true km kk = km
  Keeps-if false km kk = kk

  Keeps-call_with : (fs : List Bool) → Keeps P (call_with fs)
  unfolding call_with
  Keeps-call_with [] = record { at = λ w h. h; quiet = λ w. refl }
  Keeps-call_with (false ∷ fs) = record { at = λ w h. h; quiet = λ w. refl }
  Keeps-call_with (true ∷ fs) = record { at = λ w h. h; quiet = λ w. refl }

  pub Keeps-db_call : Keeps P db_call
  unfolding db_call
  Keeps-db_call = record {
    at = λ w h. (Keeps-call_with w.faults).at w h;
    quiet = λ w. (Keeps-call_with w.faults).quiet w;
  }

  pub Keeps-atomic : {A : Type 0} {m : Action A} → Keeps P m → Keeps P (atomic m)
  unfolding atomic
  Keeps-atomic {m} km = record {
    at = λ w h.
        keep_restore P w.db ((do a ← m; db_call; pure a) w) h
          ((Keeps-bind km (λ a. Keeps-then Keeps-db_call (Keeps-pure a))).at w h);
    quiet = λ w.
        quiet_restore w.db ((do a ← m; db_call; pure a) w)
        ∙ (Keeps-bind km (λ a. Keeps-then Keeps-db_call (Keeps-pure a))).quiet w;
  }

pub ruleset keeping = (
  Keeps-pure, Keeps-raise, Keeps-gets, Keeps-modify, Keeps-bind, Keeps-if, Keeps-db_call,
  Keeps-atomic,
)
