-- ===== src/Outbox/Updates.antt =====
-- What an UPDATE keeps of the rows, and the rule for acquiring a connection.
use crypto_derivative_algo_t.Prelude.{◌≡◌, Bool, true, List, [], ◌∷◌, All, Bool-cases, inl, inr}
use crypto_derivative_algo_t.Outbox.Rows.{OutboxRow, update_where}
use crypto_derivative_algo_t.Outbox.World.{World, after_others}
use crypto_derivative_algo_t.Outbox.Publisher.{no_work, acquire}
use crypto_derivative_algo_t.Outbox.Ends.{Triple, Triple-statement}

-- Changing rows as an update does keeps what holds of each.
pub All-update_where :
    (P : OutboxRow → Type 0) (test : OutboxRow → Bool) (change : OutboxRow → OutboxRow)
    (rows : List OutboxRow)
    → ((r : OutboxRow) → test r ≡ true → P r → P (change r))
    → All P rows
    → All P (update_where test change rows)
unfolding update_where
All-update_where P test change [] f h = tt
All-update_where P test change (r ∷ rows) f (h, hs) = elim (Bool-cases (test r)) [
  | inl e ↦ rw e (f r e h, All-update_where P test change rows f hs)
  | inr e ↦ rw e (h, All-update_where P test change rows f hs)
]

pub Triple-acquire :
    (P E : World → Type 0)
    → ((w : World) → P w → P (after_others w))
    → ((w : World) → P w → E w)
    → Triple P acquire (λ u. P) E
unfolding acquire
Triple-acquire P E keep fail = Triple-statement no_work keep fail (λ w h. h)
