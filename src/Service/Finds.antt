-- ===== src/Service/Finds.antt =====
-- What an action that loads an order finds: one rule for each way to build an action.
use crypto_derivative_algo_t.Prelude.{
  ◌≡◌, refl, subst, Bool, true, false, Option, none, some, if◌then◌else◌,
}
use crypto_derivative_algo_t.Schema.Order.{Order}
use crypto_derivative_algo_t.Failure.{Failure, Result, ok, err}
use crypto_derivative_algo_t.Store.Action.{
  World, Action, pure, lift, ◌>>=◌, try_except, handle, continue,
}
use crypto_derivative_algo_t.Service.Keeps.{Keeps}

-- Where `Pre` holds, an order that `m` returns has `P`.
pub record Finds (Pre : World → Type 0) (P : Order → Type 0) (m : Action (Option Order))
    : Type 0 where
  pub finds : (w : World) → Pre w → (o : Order) → (m w).0 ≡ ok (some o) → P o

module _ {Pre : World → Type 0} {P : Order → Type 0} where
  pub Finds-none : Finds Pre P (pure none)
  unfolding pure
  Finds-none = record { finds = λ w h o e. cc }

  pub Finds-some : (o : Order) → P o → Finds Pre P (pure (some o))
  unfolding pure
  Finds-some o p = record { finds = λ w h o' e. subst P (cc (e)) p }

  pub Finds-if :
      (test : Bool) (m n : Action (Option Order))
      → Finds Pre P m
      → Finds Pre P n
      → Finds Pre P (if test then m else n)
  Finds-if true m n f g = f
  Finds-if false m n f g = g

  pub Finds-try_except :
      (m : Action (Option Order)) (h : Failure → Action (Option Order))
      → Keeps Pre m
      → Finds Pre P m
      → ((e : Failure) → Finds Pre P (h e))
      → Finds Pre P (try_except m h)
  unfolding try_except
  Finds-try_except m h k f g = record {
    finds = λ w p. handled (m w).0 (m w).1 (k.keeps w p) (f.finds w p);
  }
    where
      handled :
          (r : Result (Option Order)) (w : World)
          → Pre w
          → ((o : Order) → r ≡ ok (some o) → P o)
          → (o : Order) → (handle r h w).0 ≡ ok (some o)
          → P o
      handled (ok a) w p q o e = q o e
      handled (err x) w p q o e = (g x).finds w p o e

  -- The result of the first action is one that it can return in such a world.
  pub Finds-bind :
      {A : Type 0} (m : Action A) (f : A → Action (Option Order))
      → Keeps Pre m
      → ((w : World) (a : A) → Pre w → (m w).0 ≡ ok a → Finds Pre P (f a))
      → Finds Pre P (m >>= f)
  unfolding ◌>>=◌
  Finds-bind {A} m f k g = record {
    finds = λ w p. continued (m w).0 (m w).1 (k.keeps w p) (λ a. g w a p);
  }
    where
      continued :
          (r : Result A) (w : World)
          → Pre w
          → ((a : A) → r ≡ ok a → Finds Pre P (f a))
          → (o : Order) → (continue r f w).0 ≡ ok (some o)
          → P o
      continued (ok a) w p q o e = (q a refl).finds w p o e
      continued (err x) w p q o e = cc

  pub Finds-lift_bind :
      {A : Type 0} (r : Result A) (f : A → Action (Option Order))
      → ((a : A) → r ≡ ok a → Finds Pre P (f a))
      → Finds Pre P (lift r >>= f)
  unfolding ◌>>=◌ lift
  Finds-lift_bind {A} (ok a) f g = record { finds = (g a refl).finds }
  Finds-lift_bind {A} (err x) f g = record { finds = λ w h o e. cc }
