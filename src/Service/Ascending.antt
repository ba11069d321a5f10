-- ===== src/Service/Ascending.antt =====
-- The order in which the open orders are paged, and lists in that order.
use crypto_derivative_algo_t.Prelude.{
  ℕ, zero, suc, String, ◌≡◌, ◌≢◌, refl, ap, Bool, true, false, Option, none, some, List, [], ◌∷◌,
  nat_eq, if◌then◌else◌, take, drop, filter_if, All, All-map, Bool-cases, inl, inr, ==_iff, arith,
}
use crypto_derivative_algo_t.Schema.Order.{Order}
use crypto_derivative_algo_t.Service.Pages.{is_after, cursor_at, insert_ascending, last_of}

-- The collation orders the texts strictly.
pub record IsTextOrder (text_before : String → String → Bool) : Type 0 where
  pub irreflexive : (k : String) → text_before k k ≡ false
  pub transitive :
      (j k l : String) → text_before j k ≡ true → text_before k l ≡ true → text_before j l ≡ true
  pub total : (j k : String) → j ≢ k → text_before j k ≡ false → text_before k j ≡ true

-- The members that pass a test, of a list whose members that pass it pass another one too.
pub filter_if-filter_if {ℓ} :
    {A : Type ℓ} (p q : A → Bool) (xs : List A)
    → ((x : A) → p x ≡ true → q x ≡ true)
    → filter_if p (filter_if q xs) ≡ filter_if p xs
filter_if-filter_if p q [] h = refl
filter_if-filter_if p q (x ∷ xs) h = ground (arith, h x, filter_if-filter_if p q xs h)

pub filter_if-All {ℓ} :
    {A : Type ℓ} (p : A → Bool) (xs : List A) → All (λ x. p x ≡ true) xs → filter_if p xs ≡ xs
filter_if-All p [] h = refl
filter_if-All p (x ∷ xs) (h, hs) = rw h (ap (λ ys. x ∷ ys) (filter_if-All p xs hs))

-- Filtering keeps what holds of all members.
pub All-kept {ℓ κ} :
    {A : Type ℓ} (P : A → Type κ) (p : A → Bool) (xs : List A) → All P xs → All P (filter_if p xs)
All-kept P p [] h = tt
All-kept P p (x ∷ xs) (h, hs) = elim (Bool-cases (p x)) [
  | inl e ↦ rw e (h, All-kept P p xs hs)
  | inr e ↦ rw e (All-kept P p xs hs)
]

module _ (text_before : String → String → Bool) (order : IsTextOrder text_before) where
  abbrev pub before : Order → Order → Bool
  before a b = is_after text_before (cursor_at text_before a) b

  pub before_trans : (a b c : Order) → before a b ≡ true → before b c ≡ true → before a c ≡ true
  unfolding is_after
  before_trans a b c h k = ground (
    arith,
    order.transitive a.order_id b.order_id c.order_id,
    ==_iff a.updated_ts b.updated_ts,
    ==_iff b.updated_ts c.updated_ts,
    ==_iff a.updated_ts c.updated_ts,
  )

  -- What comes after an order comes after every cursor that the order comes after.
  pub after_trans :
      (cursor : Option (ℕ × String)) (a b : Order)
      → is_after text_before cursor a ≡ true
      → before a b ≡ true
      → is_after text_before cursor b ≡ true
  unfolding is_after
  after_trans none a b h k = refl
  after_trans (some (ts, i)) a b h k = ground (
    arith,
    order.transitive i a.order_id b.order_id,
    ==_iff ts a.updated_ts,
    ==_iff a.updated_ts b.updated_ts,
    ==_iff ts b.updated_ts,
  )

  before_irrefl : (a : Order) → before a a ≡ false
  unfolding is_after
  before_irrefl a = ground (arith, order.irreflexive a.order_id)

  before_total : (a b : Order) → a.order_id ≢ b.order_id → before a b ≡ false → before b a ≡ true
  unfolding is_after
  before_total a b d h = ground (arith, order.total a.order_id b.order_id d)

  -- Each member comes before all later ones.
  abbrev pub Ascending : List Order → Type 0
  Ascending [] = Unit {0}
  Ascending (o ∷ rest) = All (λ p. before o p ≡ true) rest × Ascending rest

  pub All-insert {κ} :
      (P : Order → Type κ) (o : Order) (xs : List Order)
      → P o
      → All P xs
      → All P (insert_ascending text_before o xs)
  unfolding insert_ascending
  All-insert P o [] h hs = (h, tt)
  All-insert P o (p ∷ rest) h (k, ks) = elim (Bool-cases (before o p)) [
    | inl e ↦ rw e (h, (k, ks))
    | inr e ↦ rw e (k, All-insert P o rest h ks)
  ]

  pub insert-Ascending :
      (o : Order) (xs : List Order)
      → All (λ p. o.order_id ≢ p.order_id) xs
      → Ascending xs
      → Ascending (insert_ascending text_before o xs)
  unfolding insert_ascending
  insert-Ascending o [] d h = (tt, tt)
  insert-Ascending o (p ∷ rest) (d, ds) (h, hs) = elim (Bool-cases (before o p)) [
    | inl e ↦ rw e (
      (
        e,
        All-map (λ q. before p q ≡ true) (λ q. before o q ≡ true) rest
            (λ q k. before_trans o p q e k) h,
      ),
      (h, hs),
    )
    | inr e ↦ rw e (
      All-insert (λ q. before p q ≡ true) o rest (before_total o p d e) h,
      insert-Ascending o rest ds hs,
    )
  ]

  insert-first :
      (o : Order) (xs : List Order)
      → All (λ p. before o p ≡ true) xs
      → insert_ascending text_before o xs ≡ o ∷ xs
  unfolding insert_ascending
  insert-first o [] h = refl
  insert-first o (p ∷ rest) (h, hs) = rw h refl

  pub filter_if-insert :
      (q : Order → Bool) (o : Order) (xs : List Order)
      → Ascending xs
      → filter_if q (insert_ascending text_before o xs)
        ≡ (if q o then insert_ascending text_before o (filter_if q xs) else filter_if q xs)
  unfolding insert_ascending
  filter_if-insert q o [] h = refl
  filter_if-insert q o (p ∷ rest) (h, hs) = elim (Bool-cases (before o p)) [
    | inl e ↦ ground (
      arith,
      insert-first o (filter_if q (p ∷ rest)) (
          All-kept (λ r. before o r ≡ true) q (p ∷ rest)
            (
              e,
              All-map (λ r. before p r ≡ true) (λ r. before o r ≡ true) rest
                  (λ r k. before_trans o p r e k) h,
            )),
    )
    | inr e ↦ ground (arith, filter_if-insert q o rest hs)
  ]

  pub Ascending-kept :
      (q : Order → Bool) (xs : List Order) → Ascending xs → Ascending (filter_if q xs)
  Ascending-kept q [] h = tt
  Ascending-kept q (o ∷ rest) (h, hs) = elim (Bool-cases (q o)) [
    | inl e ↦ rw e (All-kept (λ p. before o p ≡ true) q rest h, Ascending-kept q rest hs)
    | inr e ↦ rw e (Ascending-kept q rest hs)
  ]

  pub last_holds {κ} :
      (P : Order → Type κ) (n : ℕ) (o : Order) (rest : List Order)
      → P o
      → All P rest
      → P (last_of o (take n rest))
  unfolding last_of
  last_holds P zero o rest h hs = h
  last_holds P (suc n) o [] h hs = h
  last_holds P (suc n) o (p ∷ rest) h (k, ks) = last_holds P n p rest k ks

  -- What comes after the last member of a page are the members that the page left out.
  pub after_page :
      (n : ℕ) (o : Order) (rest : List Order)
      → Ascending (o ∷ rest)
      → filter_if (before (last_of o (take n rest))) (o ∷ rest) ≡ drop n rest
  unfolding last_of
  after_page zero o rest (h, hs) = rw (before_irrefl o) (filter_if-All (before o) rest h)
  after_page (suc n) o [] (h, hs) = rw (before_irrefl o) refl
  after_page (suc n) o (p ∷ rest) ((h, k), hs) = rw not_after (after_page n p rest hs)
    where
      not_after : before (last_of p (take n rest)) o ≡ false
      not_after = elim (Bool-cases (before (last_of p (take n rest)) o)) [
        | inl e ↦ cc (
          before_trans o (last_of p (take n rest)) o
              (last_holds (λ x. before o x ≡ true) n p rest h k) e,
          before_irrefl o,
        )
        | inr e ↦ e
      ]
