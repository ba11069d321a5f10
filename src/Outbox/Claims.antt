-- ===== src/Outbox/Claims.antt =====
-- A claim locks what it takes: no other publisher gets it before the lock has run out.
use crypto_derivative_algo_t.Prelude.{
  ℕ, ◌+◌, ◌≤◌, ◌<◌, ◌≡◌, ◌⊎◌, refl, ap, Bool, true, false, ◌&&◌, List, [], ◌∷◌, map, ◌==◌, nat_eq,
  ==_iff, count_if, length, length-take, filter_if, Bool-cases, inl, inr, arith,
}
use crypto_derivative_algo_t.Outbox.Rows.{
  OutboxRow, ClaimedEvent, Settings, returning, has_id, claim_unpublished, update_where, lock_row,
  is_among, claimed, candidates, is_claimable, sort_by_age,
}
use crypto_derivative_algo_t.Outbox.Candidates.{is_free, claimed-count}

-- After a claim, no row with a claimed id is free for another publisher within the time of the lock.
none_free :
    (p q : Settings) (now later : ℕ) (held : ℕ → Bool) (events : List ClaimedEvent) (k : ℕ)
    (rows : List OutboxRow)
    → later < now + p.lock_ttl_ms
    → has_id k events ≡ true
    → count_if
        (λ r. r.event_id == k && is_free q later held r)
        (update_where (is_among events) (lock_row p now) rows)
      ≡ 0
unfolding update_where is_claimable
none_free p q now later held events k [] h e = refl
none_free p q now later held events k (r ∷ rows) h e =
    elim (Bool-cases (has_id r.event_id events)) [
      | inl among ↦ rw among (ground (arith, none_free p q now later held events k rows h e))
      | inr other ↦
          rw (other, differs other) (omega (arith, none_free p q now later held events k rows h e))
    ]
  where
    differs : has_id r.event_id events ≡ false → (r.event_id == k) ≡ false
    differs other = elim (Bool-cases (r.event_id == k)) [
      | inl same ↦ cc (ap (λ j. has_id j events) ((==_iff r.event_id k).0 same))
      | inr ne ↦ ne
    ]

length-map : (rows : List OutboxRow) → length (map returning rows) ≡ length rows
length-map [] = refl
length-map (r ∷ rows) = omega (arith, length-map rows)

-- A claim takes at most `batch_size` events, and another publisher that claims from the rows that it
-- leaves, at a time before its locks run out, gets none of the events that it took.
pub claims_are_exclusive :
    (p q : Settings) (now later : ℕ) (held held' : ℕ → Bool)
    (order : List ClaimedEvent → List ClaimedEvent) (rows : List OutboxRow)
    → later < now + p.lock_ttl_ms
    → (length (claimed p now held rows) ≤ p.batch_size)
      × ((k : ℕ)
          → has_id k (claimed p now held rows) ≡ true
          → has_id k (claimed q later held' (claim_unpublished p now held order rows).1) ≡ false)
unfolding claim_unpublished candidates
claims_are_exclusive p q now later held held' order rows h = (
  omega (
    arith,
    length-map (candidates p now held rows),
    length-take p.batch_size (sort_by_age (filter_if (is_free p now held) rows)),
  ),
  λ k e. excluded k e (Bool-cases _),
)
  where
    left : List OutboxRow
    left = update_where (is_among (claimed p now held rows)) (lock_row p now) rows

    excluded :
        (k : ℕ)
        → has_id k (claimed p now held rows) ≡ true
        → (has_id k (claimed q later held' left) ≡ true)
          ⊎ (has_id k (claimed q later held' left) ≡ false)
        → has_id k (claimed q later held' left) ≡ false
    excluded k e (inr no_claim) = no_claim
    excluded k e (inl again) = absurd (
        omega (
          arith,
          claimed-count q later held' (is_free q later held') k left (λ r f. f) again,
          none_free p q now later held' (claimed p now held rows) k rows h e,
        ))
