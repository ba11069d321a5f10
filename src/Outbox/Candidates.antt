-- ===== src/Outbox/Candidates.antt =====
-- The candidates of a claim, counted: sorting loses none, filtering and the limit only leave some out.
use crypto_derivative_algo_t.Prelude.{
  ℕ, zero, suc, ◌≤◌, ◌<◌, ◌≡◌, refl, Bool, true, not, ◌&&◌, List, [], ◌∷◌, map, ◌==◌, nat_eq,
  count_if, take, filter_if, All, All-take, All-filter_if, Bool-cases, inl, inr, arith,
}
use crypto_derivative_algo_t.Outbox.Rows.{
  OutboxRow, Settings, returning, has_id, comes_first, insert_by_age, sort_by_age, candidates,
  is_claimable, claimed,
}

module _ {ℓ} {A : Type ℓ} where
  count_if-take :
      (test : A → Bool) (n : ℕ) (xs : List A) → count_if test (take n xs) ≤ count_if test xs
  count_if-take test zero xs = omega arith
  count_if-take test (suc n) [] = omega arith
  count_if-take test (suc n) (x ∷ xs) = ground (arith, count_if-take test n xs)

  count_if-filter :
      (test p : A → Bool) (xs : List A) → count_if test (filter_if p xs) ≤ count_if test xs
  count_if-filter test p [] = omega arith
  count_if-filter test p (x ∷ xs) = elim (Bool-cases (p x)) [
    | inl e ↦ rw e (ground (arith, count_if-filter test p xs))
    | inr e ↦ rw e (ground (arith, count_if-filter test p xs))
  ]

  take-eq-nil : (n : ℕ) (xs : List A) → take (suc n) xs ≡ [] → xs ≡ []
  take-eq-nil n [] h = refl
  take-eq-nil n (x ∷ xs) h = cc

count_if-insert :
    (test : OutboxRow → Bool) (r : OutboxRow) (rows : List OutboxRow)
    → count_if test (insert_by_age r rows) ≡ count_if test (r ∷ rows)
unfolding insert_by_age
count_if-insert test r [] = refl
count_if-insert test r (s ∷ rows) = elim (Bool-cases (comes_first r s)) [
  | inl e ↦ rw e
  | inr e ↦ rw e (ground (arith, count_if-insert test r rows))
]

count_if-sort :
    (test : OutboxRow → Bool) (rows : List OutboxRow)
    → count_if test (sort_by_age rows) ≡ count_if test rows
unfolding sort_by_age
count_if-sort test [] = refl
count_if-sort test (r ∷ rows) =
    omega (arith, count_if-insert test r (sort_by_age rows), count_if-sort test rows)

insert-ne-nil : (r : OutboxRow) (rows : List OutboxRow) → insert_by_age r rows ≡ [] → ⊥
unfolding insert_by_age
insert-ne-nil r [] h = cc
insert-ne-nil r (s ∷ rows) h = ground (arith, h)

sort-eq-nil : (rows : List OutboxRow) → sort_by_age rows ≡ [] → rows ≡ []
unfolding sort_by_age
sort-eq-nil [] h = refl
sort-eq-nil (r ∷ rows) h = absurd (insert-ne-nil r (sort_by_age rows) h)

-- A claimed id is that of one of the rows.
has_id-count :
    (f : OutboxRow → Bool) (k : ℕ) (rows : List OutboxRow)
    → All (λ r. f r ≡ true) rows
    → has_id k (map returning rows) ≡ true
    → 0 < count_if (λ r. r.event_id == k && f r) rows
unfolding has_id
has_id-count f k [] h e = cc
has_id-count f k (r ∷ rows) (h, hs) e = ground (arith, e, h, has_id-count f k rows hs)

module _ (P : OutboxRow → Type 0) where
  All-insert :
      (r : OutboxRow) (rows : List OutboxRow) → P r → All P rows → All P (insert_by_age r rows)
  unfolding insert_by_age
  All-insert r [] h hs = (h, tt)
  All-insert r (s ∷ rows) h (k, ks) = elim (Bool-cases (comes_first r s)) [
    | inl e ↦ rw e (h, (k, ks))
    | inr e ↦ rw e (k, All-insert r rows h ks)
  ]

  All-sort : (rows : List OutboxRow) → All P rows → All P (sort_by_age rows)
  unfolding sort_by_age
  All-sort [] h = tt
  All-sort (r ∷ rows) (h, hs) = All-insert r (sort_by_age rows) h (All-sort rows hs)

module _ (p : Settings) (now : ℕ) (held : ℕ → Bool) where
  abbrev pub is_free : OutboxRow → Bool
  is_free r = is_claimable p now r && not (held r.event_id)

  -- What is true of every claimable row is true of every candidate.
  pub All-candidates :
      (P : OutboxRow → Type 0)
      → ((r : OutboxRow) → is_free r ≡ true → P r)
      → (rows : List OutboxRow) → All P (candidates p now held rows)
  unfolding candidates
  All-candidates P f rows =
      All-take P p.batch_size _ (All-sort P _ (All-filter_if P is_free rows f))

  -- Each claimed event is that of a row with what holds of every claimable row.
  pub claimed-count :
      (f : OutboxRow → Bool) (k : ℕ) (rows : List OutboxRow)
      → ((r : OutboxRow) → is_free r ≡ true → f r ≡ true)
      → has_id k (claimed p now held rows) ≡ true
      → 0 < count_if (λ r. r.event_id == k && f r) rows
  unfolding candidates
  claimed-count f k rows free e =
      let found = filter_if is_free rows in
      omega (
        arith,
        has_id-count f k (candidates p now held rows) (All-candidates (λ r. f r ≡ true) free rows)
            e,
        count_if-take (λ r. r.event_id == k && f r) p.batch_size (sort_by_age found),
        count_if-sort (λ r. r.event_id == k && f r) found,
        count_if-filter (λ r. r.event_id == k && f r) is_free rows,
      )

  -- If a claim that may take at least one event takes none, no row is claimable.
  pub claimed-eq-nil :
      (rows : List OutboxRow)
      → 0 < p.batch_size
      → claimed p now held rows ≡ []
      → filter_if is_free rows ≡ []
  unfolding candidates
  claimed-eq-nil rows positive e = sort-eq-nil _ (by_size p.batch_size positive (map-eq-nil _ e))
    where
      map-eq-nil : (rs : List OutboxRow) → map returning rs ≡ [] → rs ≡ []
      map-eq-nil [] h = refl
      map-eq-nil (r ∷ rs) h = cc

      by_size : {rs : List OutboxRow} (n : ℕ) → 0 < n → take n rs ≡ [] → rs ≡ []
      by_size zero h e = absurd (omega arith)
      by_size {rs} (suc n) h e = take-eq-nil n rs e
