-- ===== src/Ids/Series.antt =====
-- A series of ids: increasing, apart from those of other nodes, and ended.
use Prim.Native.Nat.{bit_and}
use crypto_derivative_algo_t.Prelude.{
  ℕ, zero, suc, ◌+◌, ◌-◌, ◌<◌, ◌≡◌, ◌≢◌, refl, sym, ◌∙◌, subst, Bool, true, false, Option, none,
  some, is_none, List, [], ◌∷◌, ltb, eqb, if◌then◌else◌, arith,
}
use crypto_derivative_algo_t.Ids.Snowflake.{
  custom_epoch_ms, Generator, Outcome, made, raised, waiting, wait_next_ms, join_parts, generate_at,
  generate_int, generate_many, after_wait, finish, is_last, held_back,
}
use crypto_derivative_algo_t.Ids.Unique.{
  IsValid, MadeNext, IsAfter, last_id, id_number, join_parts-id_number, generate_int-MadeNext,
}

-- Each id is above the one before it.
abbrev pub IsIncreasing : Option ℕ → List ℕ → Type 0
IsIncreasing before [] = Unit {0}
IsIncreasing before (id ∷ rest) = IsAfter before id × IsIncreasing (some id) rest

-- However many ids a valid generator makes in a series, and whatever the clock does, they increase
-- strictly, from the last one that it had made before.
pub generate_many-IsIncreasing :
    (n fuel : ℕ) (clock : ℕ → ℕ) (position : ℕ) (g : Generator)
    → IsValid g
    → IsIncreasing (last_id g) (generate_many n fuel clock position g)
unfolding generate_many
generate_many-IsIncreasing zero fuel clock position g v = tt
generate_many-IsIncreasing (suc n) fuel clock position g v =
    by_outcome (λ position' g'. generate_many-IsIncreasing n fuel clock position' g')
      (generate_int fuel clock position g) (generate_int-MadeNext fuel clock position g v)
  where
    by_outcome :
        ((position' : ℕ) (g' : Generator)
          → IsValid g'
          → IsIncreasing (last_id g') (generate_many n fuel clock position' g'))
        → (r : Outcome) → MadeNext g r
        → IsIncreasing (last_id g) (elim r [
          | made id g' position' ↦ id ∷ generate_many n fuel clock position' g'
          | raised ↦ []
          | waiting ↦ []
        ])
    by_outcome ih (made id g' position') m = (
      m.increases,
      subst (λ l. IsIncreasing l (generate_many n fuel clock position' g')) m.remembered
          (ih position' g' m.valid),
    )
    by_outcome ih raised m = tt
    by_outcome ih waiting m = tt

-- An id tells its time, its node and its sequence number, so that two nodes never make the same id.
pub join_parts-injective :
    (ts ts' n n' s s' : ℕ)
    → n < 1024
    → n' < 1024
    → s < 4096
    → s' < 4096
    → join_parts ts n s ≡ join_parts ts' n' s'
    → (ts ≡ ts') × (n ≡ n') × (s ≡ s')
join_parts-injective ts ts' n n' s s' a b c d e =
    let equal : id_number ts n s ≡ id_number ts' n' s' =
      sym (join_parts-id_number ts n s a c) ∙ e ∙ join_parts-id_number ts' n' s' b d in
    (omega (arith, equal), omega (arith, equal), omega (arith, equal))

the_same : (a : ℕ) → a + 0 ≡ a
the_same a = omega arith

moved : (a b : ℕ) → a + suc b ≡ suc a + b
moved a b = omega arith

-- With fuel for the reading at which the clock has passed the last time, the wait ends.
wait_next_ms-ends :
    (fuel k : ℕ) (clock : ℕ → ℕ) (position last : ℕ)
    → k < fuel
    → last < clock (position + k)
    → is_none (wait_next_ms fuel clock position last) ≡ false
unfolding wait_next_ms
wait_next_ms-ends zero k clock position last p q = absurd (omega arith)
wait_next_ms-ends (suc n) zero clock position last p q =
    let here : last < clock position = subst (λ x. last < clock x) (the_same position) q in
    ground arith
wait_next_ms-ends (suc n) (suc k) clock position last p q =
    let later : last < clock (suc position + k) =
      subst (λ x. last < clock x) (moved position k) q in
    ground (arith, wait_next_ms-ends n k clock (suc position) last (omega arith) later)

after_wait_ends :
    (g : Generator) (r : Option (ℕ × ℕ)) → is_none r ≡ false → after_wait g r ≢ waiting
after_wait_ends g none h = cc
after_wait_ends g (some (ts, used)) h = λ e. cc

generate_at_ends :
    (fuel k : ℕ) (clock : ℕ → ℕ) (position : ℕ) (g : Generator) (ts : ℕ)
    → k < fuel
    → (g.last_ts_ms ≡ some ts → ts + custom_epoch_ms < clock (position + k))
    → generate_at fuel clock position g ts ≢ waiting
unfolding generate_at
generate_at_ends fuel k clock position g ts p h = by_time (is_last g.last_ts_ms ts) refl
  where
    next : ℕ
    next = bit_and (g.sequence + 1) 4095

    waited : Option (ℕ × ℕ)
    waited = wait_next_ms fuel clock position (ts + custom_epoch_ms)

    by_room :
        (z : Bool)
        → g.last_ts_ms ≡ some ts
        → (if z then after_wait g waited else finish g ts next position) ≢ waiting
    by_room true e =
        after_wait_ends g waited
          (wait_next_ms-ends fuel k clock position (ts + custom_epoch_ms) p (h e))
    by_room false e = λ w. cc

    by_time :
        (b : Bool)
        → is_last g.last_ts_ms ts ≡ b
        → (if b
            then (if eqb next 0 then after_wait g waited else finish g ts next position)
            else finish g ts 0 position)
          ≢ waiting
    by_time true e = by_room (eqb next 0) (ground (arith, e))
    by_time false e = λ w. cc

-- A call ends, with an id or a ValueError, if among the readings that the fuel allows one has
-- passed the last time.
pub generate_int_ends :
    (fuel k : ℕ) (clock : ℕ → ℕ) (position : ℕ) (g : Generator)
    → k < fuel
    → ((l : ℕ) → g.last_ts_ms ≡ some l → l + custom_epoch_ms < clock (suc position + k))
    → generate_int fuel clock position g ≢ waiting
unfolding generate_int
generate_int_ends fuel k clock position g p h = by_epoch (ltb (clock position) custom_epoch_ms)
  where
    ts : ℕ
    ts = held_back g.last_ts_ms (clock position - custom_epoch_ms)

    by_epoch :
        (b : Bool) → (if b then raised else generate_at fuel clock (suc position) g ts) ≢ waiting
    by_epoch true = λ w. cc
    by_epoch false = generate_at_ends fuel k clock (suc position) g ts p (h ts)
