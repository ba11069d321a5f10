-- ===== src/Service/Keeps.antt =====
-- Invariants of actions: one rule for each way to build an action.
use crypto_derivative_algo_t.Prelude.{◌≡◌, refl, Bool, true, false, if◌then◌else◌}
use crypto_derivative_algo_t.Failure.{Failure, Result, ok, err}
use crypto_derivative_algo_t.Store.Action.{
  World, Action, pure, raise, lift, gets, ◌>>=◌, try_except, ignore_errors, epoch_ms,
  generate_order_id, statement, handle, continue, redis_call,
}

-- However `m` ends, `P` still holds after it.
pub record Keeps {A : Type 0} (P : World → Type 0) (m : Action A) : Type 0 where
  pub keeps : (w : World) → P w → P (m w).1

-- A property of the tables and of Redis alone.
pub record IsStorage (P : World → Type 0) : Type 0 where
  pub carry : (w w' : World) → w'.tables ≡ w.tables → w'.redis ≡ w.redis → P w → P w'

module _ {A : Type 0} {P : World → Type 0} where
  pub Keeps-if :
      (test : Bool) (yes no : Action A)
      → (test ≡ true → Keeps P yes)
      → (test ≡ false → Keeps P no)
      → Keeps P (if test then yes else no)
  Keeps-if true m n k _ = k refl
  Keeps-if false m n _ k = k refl

  pub Keeps-gets : (f : World → A) → Keeps P (gets f)
  unfolding gets
  Keeps-gets f = record { keeps = λ w h. h }

  pub Keeps-pure : (a : A) → Keeps P (pure a)
  unfolding pure
  Keeps-pure a = record { keeps = λ w h. h }

  pub Keeps-raise : (e : Failure) → Keeps P (raise {A = A} e)
  unfolding raise
  Keeps-raise e = record { keeps = λ w h. h }

  pub Keeps-lift : (r : Result A) → Keeps P (lift r)
  unfolding lift
  Keeps-lift r = record { keeps = λ w h. h }

  pub Keeps-try_except :
      (m : Action A) (h : Failure → Action A)
      → Keeps P m
      → ((e : Failure) → Keeps P (h e))
      → Keeps P (try_except m h)
  unfolding try_except
  Keeps-try_except m h km kh = record { keeps = λ w p. handled (m w).0 (m w).1 (km.keeps w p) }
    where
      handled : (r : Result A) (w : World) → P w → P (handle r h w).1
      handled (ok a) w p = p
      handled (err e) w p = (kh e).keeps w p

module _ {A B : Type 0} {P : World → Type 0} where
  Keeps-continue :
      (r : Result A) (f : A → Action B) (w : World)
      → ((a : A) → Keeps P (f a))
      → P w
      → P (continue r f w).1
  Keeps-continue (ok a) f w kf h = (kf a).keeps w h
  Keeps-continue (err e) f w kf h = h

  pub Keeps-bind :
      (m : Action A) (f : A → Action B) → Keeps P m → ((a : A) → Keeps P (f a)) → Keeps P (m >>= f)
  unfolding ◌>>=◌
  Keeps-bind m f km kf = record {
    keeps = λ w h. Keeps-continue (m w).0 f (m w).1 kf (km.keeps w h);
  }

  -- A bind of a computed result: what follows may use that it succeeded.
  pub Keeps-lift_bind :
      (r : Result A) (f : A → Action B)
      → ((a : A) → r ≡ ok a → Keeps P (f a))
      → Keeps P (lift r >>= f)
  unfolding ◌>>=◌ lift
  Keeps-lift_bind (ok a) f kf = record { keeps = (kf a refl).keeps }
  Keeps-lift_bind (err e) f kf = record { keeps = λ w h. h }

module _ {A B : Type 0} {P : World → Type 0} where
  -- A bind whose second action may use what the first one can return in such a world.
  pub Keeps-bind_returned :
      (m : Action A) (f : A → Action B)
      → Keeps P m
      → ((w : World) (a : A) → P w → (m w).0 ≡ ok a → Keeps P (f a))
      → Keeps P (m >>= f)
  unfolding ◌>>=◌
  Keeps-bind_returned m f k g = record {
    keeps = λ w p. continued (m w).0 (m w).1 (k.keeps w p) (λ a. g w a p);
  }
    where
      continued :
          (r : Result A) (w : World)
          → P w
          → ((a : A) → r ≡ ok a → Keeps P (f a))
          → P (continue r f w).1
      continued (ok a) w p q = (q a refl).keeps w p
      continued (err x) w p q = p

pub ruleset keeps_rules =
    (Keeps-pure, Keeps-raise, Keeps-lift, Keeps-gets, Keeps-if, Keeps-try_except, Keeps-bind)

module _ {P : World → Type 0} where
  pub Keeps-ignore_errors : {A : Type 0} (m : Action A) → Keeps P m → Keeps P (ignore_errors m)
  unfolding ignore_errors
  Keeps-ignore_errors {A} m km =
      Keeps-try_except _ _ (Keeps-bind m (λ _. pure tt) km (λ _. Keeps-pure tt))
        (λ _. Keeps-pure tt)

  module _ (storage : IsStorage P) where
    pub Keeps-epoch_ms : Keeps P epoch_ms
    unfolding epoch_ms
    Keeps-epoch_ms = record { keeps = λ w h. storage.carry w _ refl refl h }

    pub Keeps-generate_order_id : Keeps P generate_order_id
    unfolding generate_order_id
    Keeps-generate_order_id = record { keeps = λ w h. storage.carry w _ refl refl h }

    pub Keeps-statement : Keeps P statement
    unfolding statement
    Keeps-statement = record { keeps = λ w h. storage.carry w _ refl refl h }

    pub Keeps-redis_call : Keeps P redis_call
    unfolding redis_call
    Keeps-redis_call = record { keeps = λ w h. storage.carry w _ refl refl h }
