-- ===== src/Outbox/Progress.antt =====
-- With a broker and a database that answer, the publisher alone works off every event.
use crypto_derivative_algo_t.Prelude.{
  ℕ, ◌+◌, ◌≤◌, ◌≡◌, refl, sym, subst, ◌∙◌, String, false, List, [], ◌∷◌, map, count_if, All, arith,
}
use crypto_derivative_algo_t.Failure.{Failure}
use crypto_derivative_algo_t.Outbox.Rows
use crypto_derivative_algo_t.Outbox.Rows.{
  OutboxRow, ClaimedEvent, Settings, has_id, is_held_by, publish_row, lock_row, is_among, claimed,
  count_unpublished, update_where,
}
use crypto_derivative_algo_t.Outbox.World.{
  World, Shared, Answers, delivered, next_turn, after_others, now_ms,
}
use crypto_derivative_algo_t.Outbox.Publisher.{
  Stats, no_work, acquire, mark_work, mark_published, message, publish_event, record_publication,
  publish_one, publish_all,
}
use crypto_derivative_algo_t.Outbox.InHand.{
  InHand, count_unpublished-mark, InHand-mark, map-update_where,
}
use crypto_derivative_algo_t.Outbox.Ends.{
  Triple, Triple-pure, Triple-answered, Triple-bind, Triple-try_except, Triple-now_ms,
  Triple-delivered,
}

-- The broker and the database answer every call, nobody else works on the outbox, and RETURNING
-- gives the updated rows in any order.
pub record IsHealthy (a : Answers) : Type 0 where
  pub sends : (n : ℕ) → a.sendings n ≡ delivered
  pub answers : (n : ℕ) → a.postgres_fails n ≡ false
  pub alone : (n : ℕ) (s : Shared) → a.others n s ≡ s
  pub free : (n k : ℕ) → a.held n k ≡ false
  pub reorders :
      (n k : ℕ) (events : List ClaimedEvent) → has_id k (a.order n events) ≡ has_id k events

module _ (p : Settings) (ids : List ℕ) (c : ℕ) where
  -- At most `c` events are left, beside those of `bonus`.
  pub record Going (events : List ClaimedEvent) (bonus : List OutboxRow → ℕ) (w : World)
      : Type 0 where
    pub healthy : IsHealthy w.answers
    pub in_hand : All (InHand p events) w.rows
    pub within : count_unpublished w.rows ≤ c + bonus w.rows
    pub same_ids : map (λ r. r.event_id) w.rows ≡ ids

  abbrev pub nothing : List OutboxRow → ℕ
  nothing rows = 0

  module _ (events : List ClaimedEvent) (bonus : List OutboxRow → ℕ) where
    Going-next_turn : (w : World) → Going events bonus w → Going events bonus (next_turn w)
    Going-next_turn w h = record {
      healthy = h.healthy;
      in_hand = h.in_hand;
      within = h.within;
      same_ids = h.same_ids;
    }

    pub Going-after_others :
        (w : World) → Going events bonus w → Going events bonus (after_others w)
    Going-after_others w h =
        let e = sym (h.healthy.alone w.turn w.shared) in
        record {
          healthy = h.healthy;
          in_hand = subst (λ (s : Shared). All (InHand p events) s.rows) e h.in_hand;
          within = subst (λ (s : Shared). count_unpublished s.rows ≤ c + bonus s.rows) e h.within;
          same_ids = subst (λ (s : Shared). map (λ r. r.event_id) s.rows ≡ ids) e h.same_ids;
        }

    pub acquire-Going : Triple (Going events bonus) acquire (λ u. Going events bonus) (λ w. ⊥)
    unfolding acquire
    acquire-Going =
        Triple-answered no_work Going-after_others (λ w h. h.healthy.answers w.turn) (λ w h. h)

    pub now_ms-Going : Triple (Going events bonus) now_ms (λ ts. Going events bonus) (λ w. ⊥)
    now_ms-Going = Triple-now_ms _ _ Going-next_turn

  -- The rows that the publisher holds for the first of the claimed events.
  abbrev pub first_held : ClaimedEvent → List OutboxRow → ℕ
  first_held e rows = count_if (is_held_by p.publisher_id e.event_id) rows

  mark_published-Going :
      (e : ClaimedEvent) (events : List ClaimedEvent) (ts : ℕ)
      → Triple
          (Going (e ∷ events) (first_held e))
          (mark_published p e.event_id ts)
          (λ u. Going events nothing)
          (λ w. ⊥)
  unfolding mark_published
  mark_published-Going e events ts =
      Triple-answered (mark_work p e.event_id ts) (Going-after_others (e ∷ events) (first_held e))
        (λ w h. h.healthy.answers w.turn)
        (λ w h. record {
          healthy = h.healthy;
          in_hand = InHand-mark p e events ts w.rows h.in_hand;
          within =
              omega (arith, h.within, count_unpublished-mark p.publisher_id e.event_id ts w.rows);
          same_ids = mark-same_ids e ts w.rows ∙ h.same_ids;
        })
    where
      mark-same_ids :
          (e : ClaimedEvent) (ts : ℕ) (rows : List OutboxRow)
          → map (λ r. r.event_id) (Rows.mark_published p.publisher_id e.event_id ts rows)
            ≡ map (λ r. r.event_id) rows
      mark-same_ids e ts rows =
          unfold Rows.mark_published in map-update_where _ (publish_row ts) rows (λ r. refl)

  publish_one-Going :
      (e : ClaimedEvent) (events : List ClaimedEvent) (stats : Stats)
      → Triple
          (Going (e ∷ events) (first_held e))
          (publish_one p e stats)
          (λ s. Going events nothing)
          (λ w. ⊥)
  unfolding publish_one publish_event record_publication
  publish_one-Going e events stats =
      Triple-bind _ (λ u. Going (e ∷ events) (first_held e)) _ _ _ _
        (Triple-delivered _ _ _ (message p e) (Going-after_others (e ∷ events) (first_held e))
          (λ w h. h.healthy.sends w.turn)
          (λ w h. record {
            healthy = h.healthy;
            in_hand = h.in_hand;
            within = h.within;
            same_ids = h.same_ids;
          }))
        (λ u. Triple-bind _ _ _ _ _ _ (acquire-Going (e ∷ events) (first_held e)) (λ v.
          Triple-bind _ _ _ _ _ _ (now_ms-Going (e ∷ events) (first_held e)) (λ ts.
            Triple-bind _ _ _ _ _ _ (mark_published-Going e events ts)
              (λ x. Triple-pure _ (λ w h. h)))))

  -- What a claim leaves: if it took nothing, no event is left over.
  abbrev pub Taken : List ClaimedEvent → World → Type 0
  Taken [] = Going [] nothing
  Taken (e ∷ events) = Going (e ∷ events) (first_held e)

  Taken-Going : (events : List ClaimedEvent) (w : World) → Going events nothing w → Taken events w
  Taken-Going [] w h = h
  Taken-Going (e ∷ events) w h = record {
    healthy = h.healthy;
    in_hand = h.in_hand;
    within = omega (arith, h.within);
    same_ids = h.same_ids;
  }

  pub publish_all-Going :
      (error_text : Failure → String) (events : List ClaimedEvent) (stats : Stats)
      → Triple
          (Taken events)
          (publish_all error_text p events stats)
          (λ s. Going [] nothing)
          (λ w. ⊥)
  unfolding publish_all
  publish_all-Going error_text [] stats = Triple-pure _ (λ w h. h)
  publish_all-Going error_text (e ∷ events) stats =
      Triple-bind _ (λ s. Going events nothing) _ _ _ _
        (Triple-try_except _ _ (λ w. ⊥) _ _ _ (publish_one-Going e events stats)
          (λ x. record { ends = λ w h. absurd h }))
        (λ s. record {
          ends = λ w h. (publish_all-Going error_text events s).ends w (Taken-Going events w h);
        })
