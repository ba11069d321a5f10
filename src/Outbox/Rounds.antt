-- ===== src/Outbox/Rounds.antt =====
-- With a broker and a database that answer, as many rounds as there are unpublished events are enough.
use crypto_derivative_algo_t.Prelude.{
  ℕ, zero, suc, ◌≤◌, ◌<◌, ◌≡◌, refl, sym, subst, ◌∙◌, String, true, not, ◌||◌, List, [], ◌∷◌, map,
  same_refl, nat_eq, is_none, All, All-map, arith,
}
use crypto_derivative_algo_t.Failure.{Failure, Result, ok, err}
use crypto_derivative_algo_t.Outbox.Rows
use crypto_derivative_algo_t.Outbox.Rows.{
  OutboxRow, ClaimedEvent, Settings, has_id, is_held_by, publish_row, lock_row, is_among, claimed,
  count_unpublished, update_where,
}
use crypto_derivative_algo_t.Outbox.World.{World, Message, Shared, Answers}
use crypto_derivative_algo_t.Outbox.Publisher.{
  Stats, claim_work, claim_unpublished, publish_once, run_rounds,
}
use crypto_derivative_algo_t.Outbox.Candidates.{claimed-eq-nil}
use crypto_derivative_algo_t.Outbox.InHand.{
  is_waiting, is_in_hand, InHand, claimed-pending, count_held-claim, count_unpublished-claim,
  InHand-claim, count_unpublished-idle, map-update_where,
}
use crypto_derivative_algo_t.Outbox.Ends.{Ends, Triple, Triple-answered, Triple-bind}
use crypto_derivative_algo_t.Outbox.Delivery.{
  was_sent, IsDelivered, AllDelivered, IsOrderly, run_rounds-AllDelivered,
}
use crypto_derivative_algo_t.Outbox.Progress.{
  IsHealthy, Going, nothing, Going-after_others, acquire-Going, now_ms-Going, Taken,
  publish_all-Going,
}

-- A list of events without any id is empty.
has_id-none : (events : List ClaimedEvent) → ((k : ℕ) → has_id k [] ≡ has_id k events) → events ≡ []
unfolding has_id
has_id-none [] h = refl
has_id-none (e ∷ events) h = ground (arith, h e.event_id, same_refl e.event_id)

has_id-head :
    (e : ClaimedEvent) (events : List ClaimedEvent) → has_id e.event_id (e ∷ events) ≡ true
unfolding has_id
has_id-head e events = ground (arith, same_refl e.event_id)

module _ (p : Settings) (ids : List ℕ) (positive : 0 < p.batch_size) where
  abbrev claimed_now : ℕ → World → List ClaimedEvent
  claimed_now now w = claimed p now (w.held w.turn) w.rows

  abbrev locked_now : ℕ → World → List OutboxRow
  locked_now now w = update_where (is_among (claimed_now now w)) (lock_row p now) w.rows

  -- A claim from a state with at most one event more than `c` left.
  claim-Taken :
      (c now : ℕ) (w : World) (ordered : List ClaimedEvent)
      → ((k : ℕ) → has_id k ordered ≡ has_id k (claimed_now now w))
      → Going p ids (suc c) [] (nothing p ids (suc c)) w
      → Taken p ids c ordered (record w { shared = record w.shared { rows = locked_now now w } })
  claim-Taken c now w [] same h = record {
    healthy = h.healthy;
    in_hand = InHand-claim p now (claimed_now now w) [] w.rows same h.in_hand;
    within = omega (
      arith,
      count_unpublished-claim p now (claimed_now now w) w.rows,
      count_unpublished-idle p now (w.held w.turn) w.rows (h.healthy.free w.turn) h.in_hand
          (claimed-eq-nil p now (w.held w.turn) w.rows positive (has_id-none _ same)),
    );
    same_ids = map-update_where _ (lock_row p now) w.rows (λ r. refl) ∙ h.same_ids;
  }
  claim-Taken c now w (e ∷ events) same h =
      let found = sym (same e.event_id) ∙ has_id-head e events in
      record {
        healthy = h.healthy;
        in_hand = InHand-claim p now (claimed_now now w) (e ∷ events) w.rows same h.in_hand;
        within = omega (
          arith,
          h.within,
          count_unpublished-claim p now (claimed_now now w) w.rows,
          claimed-pending p now (w.held w.turn) e.event_id w.rows found,
          count_held-claim p now e.event_id (claimed_now now w) w.rows found,
        );
        same_ids = map-update_where _ (lock_row p now) w.rows (λ r. refl) ∙ h.same_ids;
      }

  publish_once-Going :
      (error_text : Failure → String) (c : ℕ)
      → Triple
          (Going p ids (suc c) [] (nothing p ids (suc c)))
          (publish_once error_text p)
          (λ s. Going p ids c [] (nothing p ids c))
          (λ w. ⊥)
  unfolding publish_once claim_unpublished Rows.claim_unpublished
  publish_once-Going error_text c =
      Triple-bind _ _ _ _ _ _ (now_ms-Going p ids (suc c) [] _) (λ now.
        Triple-bind _ _ _ _ _ _ (acquire-Going p ids (suc c) [] _) (λ u.
          Triple-bind _ (Taken p ids c) _ _ _ _
            (Triple-answered (claim_work p now) (Going-after_others p ids (suc c) [] _)
              (λ w h. h.healthy.answers w.turn)
              (λ w h.
                claim-Taken c now w _ (λ k. h.healthy.reorders w.turn k (claimed_now now w)) h))
            (λ events. publish_all-Going p ids c error_text events _)))

  run_rounds-Going :
      (error_text : Failure → String) (n : ℕ) (w : World)
      → Going p ids n [] (nothing p ids n) w
      → Going p ids 0 [] (nothing p ids 0) (run_rounds error_text n p w)
  unfolding run_rounds
  run_rounds-Going error_text zero w h = h
  run_rounds-Going error_text (suc n) w h =
      run_rounds-Going error_text n _ (returned _ _ ((publish_once-Going error_text n).ends w h))
    where
      returned :
          (r : Result Stats) (v : World)
          → Ends (λ s. Going p ids n [] (nothing p ids n)) (λ w. ⊥) r v
          → Going p ids n [] (nothing p ids n) v
      returned (ok s) v h = h
      returned (err x) v h = absurd h

sent_rows :
    (t : String) (sent : List Message) (rows : List OutboxRow)
    → All (IsDelivered t sent) rows
    → count_unpublished rows ≡ 0
    → All (λ r. was_sent t r.event_id sent ≡ true) rows
unfolding count_unpublished
sent_rows t sent [] d e = tt
sent_rows t sent (r ∷ rows) (d, ds) e =
    (d (ground (arith, e)), sent_rows t sent rows ds (ground (arith, e)))

alone-IsOrderly : (t : String) (a : Answers) → IsHealthy a → IsOrderly t a
alone-IsOrderly t a h = record {
  keeps = λ n s d. subst (AllDelivered t) (sym (h.alone n s)) d;
  grows = λ n s k e. subst (λ (s : Shared). was_sent t k s.sent ≡ true) (sym (h.alone n s)) e;
}

-- If the broker and the database answer every call and no one else works on the outbox, every row is
-- published or waits for a claim, and no row is marked without having been sent, then as many rounds
-- as there are unpublished rows leave none: the table has the same rows, all are published, and the
-- event of each is on the topic.
pub rounds_suffice :
    (error_text : Failure → String) (p : Settings) (n : ℕ) (w : World)
    → IsHealthy w.answers
    → 0 < p.batch_size
    → All (λ r. (not (is_none r.published_ts) || is_waiting p r) ≡ true) w.rows
    → AllDelivered p.topic w.shared
    → count_unpublished w.rows ≤ n
    → (count_unpublished (run_rounds error_text n p w).rows ≡ 0)
      × (map (λ r. r.event_id) (run_rounds error_text n p w).rows ≡ map (λ r. r.event_id) w.rows)
      × All
          (λ r. was_sent p.topic r.event_id (run_rounds error_text n p w).sent ≡ true)
          (run_rounds error_text n p w).rows
unfolding is_in_hand
rounds_suffice error_text p n w healthy positive waiting sent_first enough =
    let start : Going p (map (λ r. r.event_id) w.rows) n []
        (nothing p (map (λ r. r.event_id) w.rows) n) w =
      record {
        healthy = healthy;
        in_hand =
            All-map (λ r. (not (is_none r.published_ts) || is_waiting p r) ≡ true) (InHand p [])
              w.rows (λ r h. ground (arith, h)) waiting;
        within = omega (arith, enough);
        same_ids = refl;
      } in
    let end = run_rounds-Going p _ positive error_text n w start in
    let none_left : count_unpublished (run_rounds error_text n p w).rows ≡ 0 =
      omega (arith, end.within) in
    (
      none_left,
      end.same_ids,
      sent_rows p.topic _ _
          (run_rounds-AllDelivered error_text p n w (alone-IsOrderly p.topic w.answers healthy)
            sent_first)
          none_left,
    )
