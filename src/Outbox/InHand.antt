-- ===== src/Outbox/InHand.antt =====
-- How the statements of the publisher move a row: waiting, claimed, published; and how many are left.
use crypto_derivative_algo_t.Prelude.{
  ℕ, ◌+◌, ◌≤◌, ◌<◌, ◌≡◌, refl, sym, subst, String, Bool, true, false, not, ◌&&◌, ◌||◌, List, [],
  ◌∷◌, map, ◌==◌, nat_eq, string_eq, ==_iff, same_refl, ltb, is_none, count_if, filter_if, All,
  Bool-cases, inl, inr, arith,
}
use crypto_derivative_algo_t.Outbox.Rows
use crypto_derivative_algo_t.Outbox.Rows.{
  OutboxRow, ClaimedEvent, Settings, returning, has_id, update_where, is_locker, is_held_by,
  publish_row, lock_row, is_among, claimed, count_unpublished, is_claimable, is_past,
}
use crypto_derivative_algo_t.Outbox.Candidates.{is_free, claimed-count}

-- The row is waiting for a claim.
abbrev pub is_waiting : Settings → OutboxRow → Bool
is_waiting p r =
    ltb r.retry_count p.max_retry_count && is_none r.next_attempt_ts && is_none r.locked_until_ts

-- The row is published, or waits for a claim, or is claimed by this publisher and among `events`.
unfoldable pub is_in_hand : Settings → List ClaimedEvent → OutboxRow → Bool
is_in_hand p events r =
    not (is_none r.published_ts)
    || is_waiting p r
    || ltb r.retry_count p.max_retry_count
      && is_none r.next_attempt_ts
      && is_locker p.publisher_id r.locked_by
      && has_id r.event_id events

abbrev pub InHand : Settings → List ClaimedEvent → OutboxRow → Type 0
InHand p events r = is_in_hand p events r ≡ true

-- What a mark publishes are the rows that the publisher holds.
pub count_unpublished-mark :
    (who : String) (k ts : ℕ) (rows : List OutboxRow)
    → count_unpublished (Rows.mark_published who k ts rows) + count_if (is_held_by who k) rows
      ≡ count_unpublished rows
unfolding count_unpublished Rows.mark_published update_where is_held_by
count_unpublished-mark who k ts [] = omega arith
count_unpublished-mark who k ts (r ∷ rows) = ground (arith, count_unpublished-mark who k ts rows)

pub InHand-mark :
    (p : Settings) (e : ClaimedEvent) (events : List ClaimedEvent) (ts : ℕ) (rows : List OutboxRow)
    → All (InHand p (e ∷ events)) rows
    → All (InHand p events) (Rows.mark_published p.publisher_id e.event_id ts rows)
unfolding Rows.mark_published update_where is_in_hand has_id is_held_by
InHand-mark p e events ts [] h = tt
InHand-mark p e events ts (r ∷ rows) (h, hs) = (
  ground (arith, h, ==_iff e.event_id r.event_id, ==_iff r.event_id e.event_id),
  InHand-mark p e events ts rows hs,
)

-- The unpublished row with an id.
abbrev pub is_pending : ℕ → OutboxRow → Bool
is_pending k r = r.event_id == k && is_none r.published_ts

pub claimed-pending :
    (p : Settings) (now : ℕ) (held : ℕ → Bool) (k : ℕ) (rows : List OutboxRow)
    → has_id k (claimed p now held rows) ≡ true
    → 0 < count_if (is_pending k) rows
unfolding is_claimable
claimed-pending p now held k rows =
    claimed-count p now held (λ r. is_none r.published_ts) k rows (λ r h. ground (arith, h))

-- A claim takes hold of the pending rows with a claimed id.
pub count_held-claim :
    (p : Settings) (now k : ℕ) (events : List ClaimedEvent) (rows : List OutboxRow)
    → has_id k events ≡ true
    → count_if (is_pending k) rows
      ≤ count_if
          (is_held_by p.publisher_id k)
          (update_where (is_among events) (lock_row p now) rows)
unfolding update_where is_held_by
count_held-claim p now k events [] h = omega arith
count_held-claim p now k events (r ∷ rows) h = elim (Bool-cases (r.event_id == k)) [
  | inl e ↦
      (let same = (==_iff r.event_id k).0 e in
        let among : has_id r.event_id events ≡ true =
          subst (λ j. has_id j events ≡ true) (sym same) h in
        rw (e, among)
          (ground
            (arith, e, among, same_refl p.publisher_id, count_held-claim p now k events rows h)))
  | inr e ↦ rw e (ground (arith, e, count_held-claim p now k events rows h))
]

pub count_unpublished-claim :
    (p : Settings) (now : ℕ) (events : List ClaimedEvent) (rows : List OutboxRow)
    → count_unpublished (update_where (is_among events) (lock_row p now) rows)
      ≡ count_unpublished rows
unfolding count_unpublished update_where
count_unpublished-claim p now events [] = refl
count_unpublished-claim p now events (r ∷ rows) =
    ground (arith, count_unpublished-claim p now events rows)

pub InHand-claim :
    (p : Settings) (now : ℕ) (events ordered : List ClaimedEvent) (rows : List OutboxRow)
    → ((k : ℕ) → has_id k ordered ≡ has_id k events)
    → All (InHand p []) rows
    → All (InHand p ordered) (update_where (is_among events) (lock_row p now) rows)
unfolding update_where is_in_hand has_id
InHand-claim p now events ordered [] same h = tt
InHand-claim p now events ordered (r ∷ rows) same (h, hs) = (
  ground (arith, h, same r.event_id, same_refl p.publisher_id),
  InHand-claim p now events ordered rows same hs,
)

-- If nothing is claimable, nothing is unpublished.
pub count_unpublished-idle :
    (p : Settings) (now : ℕ) (held : ℕ → Bool) (rows : List OutboxRow)
    → ((k : ℕ) → held k ≡ false)
    → All (InHand p []) rows
    → filter_if (is_free p now held) rows ≡ []
    → count_unpublished rows ≡ 0
unfolding count_unpublished is_claimable is_in_hand has_id
count_unpublished-idle p now held [] free h e = refl
count_unpublished-idle p now held (r ∷ rows) free (h, hs) e =
    ground (arith, h, e, free r.event_id, count_unpublished-idle p now held rows free hs)

pub map-update_where :
    (test : OutboxRow → Bool) (change : OutboxRow → OutboxRow) (rows : List OutboxRow)
    → ((r : OutboxRow) → (change r).event_id ≡ r.event_id)
    → map (λ r. r.event_id) (update_where test change rows) ≡ map (λ r. r.event_id) rows
unfolding update_where
map-update_where test change [] same = refl
map-update_where test change (r ∷ rows) same =
    ground (arith, same r, map-update_where test change rows same)
