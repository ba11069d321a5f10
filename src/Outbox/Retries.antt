-- ===== src/Outbox/Retries.antt =====
-- The call of `mark_failed` never takes effect: no retry is ever counted.
use crypto_derivative_algo_t.Prelude.{
  ℕ, zero, suc, String, ◌≡◌, refl, Bool, true, List, [], ◌∷◌, is_none, All, subst,
}
use crypto_derivative_algo_t.Failure.{Failure, Result, ok, err, ok-injective}
use crypto_derivative_algo_t.Outbox.Rows
use crypto_derivative_algo_t.Outbox.Rows.{
  OutboxRow, ClaimedEvent, Settings, update_where, is_held_by, publish_row, lock_row, is_among,
  claimed,
}
use crypto_derivative_algo_t.Outbox.World.{World, Shared, next_turn, after_others, now_ms}
use crypto_derivative_algo_t.Outbox.Publisher.{
  Stats, acquire, claim_work, claim_unpublished, mark_work, mark_published, message, publish_event,
  record_publication, on_publish_error, call_mark_failed, publish_one, publish_all, publish_once,
  run_rounds,
}
use crypto_derivative_algo_t.Outbox.Updates.{All-update_where, Triple-acquire}
use crypto_derivative_algo_t.Outbox.Ends.{
  Ends, Triple, Triple-pure, Triple-raise, Triple-statement, Triple-bind, Triple-try_except,
  Triple-now_ms, Triple-publish,
}

-- No failure has been recorded in the row.
abbrev pub IsUntried : OutboxRow → Type 0
IsUntried r = (r.retry_count ≡ 0) × (is_none r.next_attempt_ts ≡ true)

abbrev pub AllUntried : Shared → Type 0
AllUntried s = All IsUntried s.rows

record Idle (w : World) : Type 0 where
  untried : AllUntried w.shared
  others_idle : (n : ℕ) (s : Shared) → AllUntried s → AllUntried (w.others n s)

Idle-next_turn : (w : World) → Idle w → Idle (next_turn w)
Idle-next_turn w h = record { untried = h.untried; others_idle = h.others_idle }

Idle-after_others : (w : World) → Idle w → Idle (after_others w)
Idle-after_others w h = record {
  untried = h.others_idle w.turn w.shared h.untried;
  others_idle = h.others_idle;
}

Idle-update_where :
    (test : OutboxRow → Bool) (change : OutboxRow → OutboxRow) (w : World)
    → ((r : OutboxRow) → IsUntried r → IsUntried (change r))
    → Idle w
    → Idle (record w { shared = record w.shared { rows = update_where test change w.rows } })
Idle-update_where test change w f h = record {
  untried = All-update_where IsUntried test change w.rows (λ r e. f r) h.untried;
  others_idle = h.others_idle;
}

-- The statistics of a call that returns count no failure.
abbrev Counted : Stats → World → Type 0
Counted s w = Idle w × (s.failed ≡ 0)

acquire-Idle : Triple Idle acquire (λ u. Idle) Idle
acquire-Idle = Triple-acquire _ _ Idle-after_others (λ w h. h)

now_ms-Idle : Triple Idle now_ms (λ ts. Idle) Idle
now_ms-Idle = Triple-now_ms _ _ Idle-next_turn

module _ (p : Settings) where
  claim_unpublished-Idle : (now : ℕ) → Triple Idle (claim_unpublished p now) (λ e. Idle) Idle
  unfolding claim_unpublished Rows.claim_unpublished
  claim_unpublished-Idle now =
      Triple-statement (claim_work p now) Idle-after_others (λ w h. h)
        (λ w.
          Idle-update_where (is_among (claimed p now (w.held w.turn) w.rows)) (lock_row p now) w
            (λ r h. h))

  mark_published-Idle : (k ts : ℕ) → Triple Idle (mark_published p k ts) (λ u. Idle) Idle
  unfolding mark_published Rows.mark_published
  mark_published-Idle k ts =
      Triple-statement (mark_work p k ts) Idle-after_others (λ w h. h)
        (λ w. Idle-update_where (is_held_by p.publisher_id k) (publish_row ts) w (λ r h. h))

  publish_one-Idle :
      (e : ClaimedEvent) (stats : Stats)
      → stats.failed ≡ 0
      → Triple Idle (publish_one p e stats) Counted Idle
  unfolding publish_one publish_event record_publication
  publish_one-Idle e stats none_failed =
      Triple-bind _ (λ u. Idle) _ _ _ _
        (Triple-publish Idle Idle Idle (message p e) Idle-after_others
          (λ w h. record { untried = h.untried; others_idle = h.others_idle })
          (λ w h. record { untried = h.untried; others_idle = h.others_idle }) (λ w h. h))
        (λ u. Triple-bind _ _ _ _ _ _ acquire-Idle (λ v. Triple-bind _ _ _ _ _ _ now_ms-Idle (λ ts.
          Triple-bind _ _ _ _ _ _ (mark_published-Idle e.event_id ts)
            (λ x. Triple-pure _ (λ w h. (h, none_failed))))))

  module _ (error_text : Failure → String) where
    -- The handler always raises.
    on_publish_error-Idle :
        (e : ClaimedEvent) (stats : Stats) (x : Failure)
        → Triple Idle (on_publish_error error_text p e stats x) Counted Idle
    unfolding on_publish_error call_mark_failed
    on_publish_error-Idle e stats x = Triple-bind _ _ _ _ _ _ acquire-Idle (λ u.
        Triple-bind _ _ _ _ _ _ now_ms-Idle (λ now.
          Triple-bind _ (λ u w. ⊥) _ _ _ _ (Triple-raise _ (λ w h. h))
            (λ u. Triple-pure _ (λ w h. absurd h))))

    publish_all-Idle :
        (events : List ClaimedEvent) (stats : Stats)
        → stats.failed ≡ 0
        → Triple Idle (publish_all error_text p events stats) Counted Idle
    unfolding publish_all
    publish_all-Idle [] stats none_failed = Triple-pure _ (λ w h. (h, none_failed))
    publish_all-Idle (e ∷ events) stats none_failed =
        Triple-bind _ Counted _ _ _ _
          (Triple-try_except _ _ Idle _ _ _ (publish_one-Idle e stats none_failed)
            (on_publish_error-Idle e stats))
          (λ s. record { ends = λ w h. (publish_all-Idle events s h.1).ends w h.0 })

    publish_once-Idle : Triple Idle (publish_once error_text p) Counted Idle
    unfolding publish_once
    publish_once-Idle = Triple-bind _ _ _ _ _ _ now_ms-Idle (λ now.
        Triple-bind _ _ _ _ _ _ acquire-Idle (λ u.
          Triple-bind _ _ _ _ _ _ (claim_unpublished-Idle now)
            (λ events. publish_all-Idle events _ refl)))

  run_rounds-Idle :
      (error_text : Failure → String) (n : ℕ) (w : World)
      → Idle w
      → Idle (run_rounds error_text n p w)
  unfolding run_rounds
  run_rounds-Idle error_text zero w h = h
  run_rounds-Idle error_text (suc n) w h =
      run_rounds-Idle error_text n _ (idle_after _ _ ((publish_once-Idle error_text).ends w h))
    where
      idle_after : (r : Result Stats) (v : World) → Ends Counted Idle r v → Idle v
      idle_after (ok s) v h = h.0
      idle_after (err e) v h = h

-- If the other tasks record no failure, then after any number of rounds no row has a retry counted
-- or a next attempt, whatever the broker and the database answer, and a further call that returns
-- counts no failed event: each failure has ended its call with an exception.
pub no_retry_is_counted :
    (error_text : Failure → String) (p : Settings) (n : ℕ) (w : World)
    → ((n : ℕ) (s : Shared) → AllUntried s → AllUntried (w.others n s))
    → AllUntried w.shared
    → AllUntried (run_rounds error_text n p w).shared
      × ((s : Stats)
          → (publish_once error_text p (run_rounds error_text n p w)).0 ≡ ok s
          → s.failed ≡ 0)
no_retry_is_counted error_text p n w idle untried =
    let h = run_rounds-Idle p error_text n w (record { untried = untried; others_idle = idle }) in
    (h.untried, λ s e. none_failed _ _ ((publish_once-Idle p error_text).ends _ h) s e)
  where
    none_failed :
        (r : Result Stats) (v : World)
        → Ends Counted Idle r v
        → (s : Stats) → r ≡ ok s
        → s.failed ≡ 0
    none_failed (ok t) v h s e = subst (λ (x : Stats). x.failed ≡ 0) (ok-injective e) h.1
    none_failed (err x) v h s e = cc
