-- ===== src/Outbox/Ends.antt =====
-- How actions of the publisher end: from every world where `P` holds, a return of `a` leaves a world
-- where `Q a` holds, and an exception one where `E` holds. One rule for each way to build an action.
use crypto_derivative_algo_t.Prelude.{◌≡◌, false, List, Bool-cases, inl, inr}
use crypto_derivative_algo_t.Failure.{Failure, Result, ok, err}
use crypto_derivative_algo_t.Outbox.Rows.{OutboxRow}
use crypto_derivative_algo_t.Outbox.World.{
  World, Message, Sending, delivered, uncertain, refused, Action, pure, raise, try_except, handle,
  ◌>>=◌, continue, now_ms, next_turn, after_others, statement, deliver, publish, end_sending,
}

abbrev pub Ends : {A : Type 0} → (A → World → Type 0) → (World → Type 0) → Result A → World → Type 0
Ends Q E (ok a) w = Q a w
Ends Q E (err e) w = E w

pub record Triple {A : Type 0} (P : World → Type 0) (m : Action A) (Q : A → World → Type 0)
    (E : World → Type 0) : Type 0 where
  pub ends : (w : World) → P w → Ends Q E (m w).0 (m w).1

module _ {A : Type 0} {P : World → Type 0} {Q : A → World → Type 0} {E : World → Type 0} where
  pub Triple-pure : (a : A) → ((w : World) → P w → Q a w) → Triple P (pure a) Q E
  unfolding pure
  Triple-pure a h = record { ends = h }

  pub Triple-raise : (e : Failure) → ((w : World) → P w → E w) → Triple P (raise e) Q E
  unfolding raise
  Triple-raise e h = record { ends = h }

  -- The call of the database: the others keep `P`, and the work leads from there to `Q`.
  pub Triple-statement :
      (work : World → A × List OutboxRow)
      → ((w : World) → P w → P (after_others w))
      → ((w : World) → P w → E w)
      → ((w : World)
          → P w
          → Q (work w).0 (record w { shared = record w.shared { rows = (work w).1 } }))
      → Triple P (statement work) Q E
  unfolding statement
  Triple-statement work keep fail h = record {
    ends = λ w p. elim (Bool-cases (w.postgres_fails w.turn)) [
      | inl e ↦ rw e (fail _ (keep w p))
      | inr e ↦ rw e (h _ (keep w p))
    ];
  }

  -- The same, where the database answers.
  pub Triple-answered :
      (work : World → A × List OutboxRow)
      → ((w : World) → P w → P (after_others w))
      → ((w : World) → P w → w.postgres_fails w.turn ≡ false)
      → ((w : World)
          → P w
          → Q (work w).0 (record w { shared = record w.shared { rows = (work w).1 } }))
      → Triple P (statement work) Q E
  unfolding statement
  Triple-answered work keep answered h = record { ends = λ w p. rw (answered w p) (h _ (keep w p)) }

module _ {A B : Type 0} (P : World → Type 0) (M : A → World → Type 0) (Q : B → World → Type 0)
    (E : World → Type 0) where
  Ends-continue :
      (r : Result A) (f : A → Action B) (w : World)
      → ((a : A) → Triple (M a) (f a) Q E)
      → Ends M E r w
      → Ends Q E (continue r f w).0 (continue r f w).1
  Ends-continue (ok a) f w tf h = (tf a).ends w h
  Ends-continue (err e) f w tf h = h

  pub Triple-bind :
      (m : Action A) (f : A → Action B)
      → Triple P m M E
      → ((a : A) → Triple (M a) (f a) Q E)
      → Triple P (m >>= f) Q E
  unfolding ◌>>=◌
  Triple-bind m f tm tf = record { ends = λ w p. Ends-continue (m w).0 f (m w).1 tf (tm.ends w p) }

module _ {A : Type 0} (P : World → Type 0) (Q : A → World → Type 0) (M E : World → Type 0) where
  Ends-handle :
      (r : Result A) (h : Failure → Action A) (w : World)
      → ((e : Failure) → Triple M (h e) Q E)
      → Ends Q M r w
      → Ends Q E (handle r h w).0 (handle r h w).1
  Ends-handle (ok a) h w th e = e
  Ends-handle (err f) h w th e = (th f).ends w e

  pub Triple-try_except :
      (m : Action A) (h : Failure → Action A)
      → Triple P m Q M
      → ((e : Failure) → Triple M (h e) Q E)
      → Triple P (try_except m h) Q E
  unfolding try_except
  Triple-try_except m h tm th = record {
    ends = λ w p. Ends-handle (m w).0 h (m w).1 th (tm.ends w p);
  }

pub Triple-now_ms :
    (P E : World → Type 0) → ((w : World) → P w → P (next_turn w)) → Triple P now_ms (λ ts. P) E
unfolding now_ms
Triple-now_ms P E keep = record { ends = keep }

Ends-sending :
    (P Q E : World → Type 0) (m : Message) (s : Sending) (w : World)
    → P w
    → ((w : World) → P w → Q (deliver m w))
    → ((w : World) → P w → E (deliver m w))
    → ((w : World) → P w → E w)
    → Ends (λ t. Q) E (end_sending s m w).0 (end_sending s m w).1
Ends-sending P Q E m delivered w p q e f = q w p
Ends-sending P Q E m (uncertain x) w p q e f = e w p
Ends-sending P Q E m (refused x) w p q e f = f w p

pub Triple-publish :
    (P Q E : World → Type 0) (m : Message)
    → ((w : World) → P w → P (after_others w))
    → ((w : World) → P w → Q (deliver m w))
    → ((w : World) → P w → E (deliver m w))
    → ((w : World) → P w → E w)
    → Triple P (publish m) (λ t. Q) E
unfolding publish
Triple-publish P Q E m keep q e f = record {
  ends = λ w p. Ends-sending P Q E m (w.sendings w.turn) (after_others w) (keep w p) q e f;
}

pub Triple-delivered :
    (P Q E : World → Type 0) (m : Message)
    → ((w : World) → P w → P (after_others w))
    → ((w : World) → P w → w.sendings w.turn ≡ delivered)
    → ((w : World) → P w → Q (deliver m w))
    → Triple P (publish m) (λ t. Q) E
unfolding publish
Triple-delivered P Q E m keep sends q = record {
  ends = λ w p. rw (sends w p) (q (after_others w) (keep w p));
}
