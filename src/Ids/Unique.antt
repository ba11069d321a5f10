-- ===== src/Ids/Unique.antt =====
-- The ids of one generator increase, those of different nodes differ, and waiting ends.
use Prim.Native.Nat.{bit_and, bit_or}
use crypto_derivative_algo_t.Prelude.{
  ℕ, zero, suc, ◌+◌, ◌-◌, ◌*◌, ◌≤◌, ◌<◌, ◌≡◌, ◌⊎◌, inl, inr, refl, sym, ap, ◌∙◌, Bool, Bool-cases,
  true, false, Option, none, some, ltb, eqb, if◌then◌else◌, arith,
}
use crypto_derivative_algo_t.Ids.Binary.{
  shift_left, bit_or-shift_left, bit_and-mask, bit_and-past_mask,
}
use crypto_derivative_algo_t.Ids.Snowflake.{
  custom_epoch_ms, Generator, Outcome, made, raised, waiting, wait_next_ms, join_parts, generate_at,
  generate_int, held_back, is_last, finish, after_wait,
}

pub record IsValid (g : Generator) : Type 0 where
  pub node_fits : g.node_id < 1024
  pub sequence_fits : g.sequence < 4096

-- The number that three parts stand for.
abbrev pub id_number : ℕ → ℕ → ℕ → ℕ
id_number ts node_id sequence = ts * 4194304 + node_id * 4096 + sequence

-- The parts do not overlap, so that joining them adds them.
pub join_parts-id_number :
    (ts node_id sequence : ℕ)
    → node_id < 1024
    → sequence < 4096
    → join_parts ts node_id sequence ≡ id_number ts node_id sequence
unfolding join_parts shift_left
join_parts-id_number ts n s p q =
    let inner : bit_or (shift_left ts 22) (shift_left n 12) ≡ shift_left (shift_left ts 10 + n) 12 =
      omega (arith, bit_or-shift_left 22 ts (shift_left n 12) (omega arith)) in
    let outer = bit_or-shift_left 12 (shift_left ts 10 + n) s (omega arith) in
    ap (λ x. bit_or x s) inner ∙ omega (arith, outer)

-- What a generator has given last, none if it has given nothing.
abbrev pub last_id : Generator → Option ℕ
last_id g = elim g.last_ts_ms [ none ↦ none | some ts ↦ some (id_number ts g.node_id g.sequence) ]

abbrev pub IsAfter : Option ℕ → ℕ → Type 0
IsAfter none id = Unit {0}
IsAfter (some old) id = old < id

-- A call that made an id: the generator is valid as before, of the same node, remembers this id,
-- and the id is above the one before.
pub record IsNext (g : Generator) (id : ℕ) (g' : Generator) : Type 0 where
  pub valid : IsValid g'
  pub same_node : g'.node_id ≡ g.node_id
  pub remembered : last_id g' ≡ some id
  pub increases : IsAfter (last_id g) id

abbrev pub MadeNext : Generator → Outcome → Type 0
MadeNext g (made id g' position) = IsNext g id g'
MadeNext g raised = Unit {0}
MadeNext g waiting = Unit {0}

-- The sequence number after a step: the next one, or none left.
next_sequence :
    (s : ℕ)
    → s < 4096
    → (bit_and (s + 1) 4095 ≡ 0) ⊎ ((bit_and (s + 1) 4095 ≡ s + 1) × (s + 1 < 4096))
unfolding shift_left
next_sequence s h = elim (Bool-cases (eqb s 4095)) [
  | inl e ↦ inl (rw (the_last e) (bit_and-past_mask 12))
  | inr e ↦ inr (bit_and-mask 12 (s + 1) (ground (arith, e)), ground (arith, e))
]
  where
    the_last : eqb s 4095 ≡ true → s ≡ 4095
    the_last e = ground (arith, e)

-- A reading that the wait returns is later than the last time.
wait_next_ms-later :
    (fuel : ℕ) (clock : ℕ → ℕ) (position last ts used : ℕ)
    → wait_next_ms fuel clock position last ≡ some (ts, used)
    → last < ts
unfolding wait_next_ms
wait_next_ms-later zero clock position last ts used h = cc
wait_next_ms-later (suc n) clock position last ts used h =
    ground (arith, wait_next_ms-later n clock (suc position) last ts used)

-- An id of a time that is not before the last one, with a sequence number that is higher if the
-- time is the same.
finish-IsNext :
    (g : Generator) (ts s : ℕ)
    → IsValid g
    → s < 4096
    → ((l : ℕ) → g.last_ts_ms ≡ some l → l * 4096 + g.sequence < ts * 4096 + s)
    → IsNext g (join_parts ts g.node_id s) (record g { last_ts_ms = some ts; sequence = s })
finish-IsNext g ts s v q later =
    let e = join_parts-id_number ts g.node_id s v.node_fits q in
    record {
      valid = record { node_fits = v.node_fits; sequence_fits = q };
      same_node = refl;
      remembered = ap some (sym e);
      increases = by_last g.last_ts_ms refl;
    }
  where
    by_last :
        (l : Option ℕ)
        → g.last_ts_ms ≡ l
        → IsAfter
            (elim l [ none ↦ none | some t ↦ some (id_number t g.node_id g.sequence) ])
            (join_parts ts g.node_id s)
    by_last none h = tt
    by_last (some l) h = omega (arith, join_parts-id_number ts g.node_id s v.node_fits q, later l h)

waited-MadeNext :
    (g : Generator) (last : ℕ) (r : Option (ℕ × ℕ))
    → IsValid g
    → g.last_ts_ms ≡ some last
    → ((ts used : ℕ) → r ≡ some (ts, used) → last + custom_epoch_ms < ts)
    → MadeNext g (after_wait g r)
waited-MadeNext g last none v e h = tt
waited-MadeNext g last (some (ts, used)) v e h =
    finish-IsNext g (ts - custom_epoch_ms) 0 v (omega arith)
      (λ l p. ground (arith, h ts used refl, e, p, v.sequence_fits))

generate_at-MadeNext :
    (fuel : ℕ) (clock : ℕ → ℕ) (position : ℕ) (g : Generator) (ts : ℕ)
    → IsValid g
    → ((l : ℕ) → g.last_ts_ms ≡ some l → l ≤ ts)
    → MadeNext g (generate_at fuel clock position g ts)
unfolding generate_at
generate_at-MadeNext fuel clock position g ts v h = by_time (is_last g.last_ts_ms ts) refl
  where
    next : ℕ
    next = bit_and (g.sequence + 1) 4095

    waited : Option (ℕ × ℕ)
    waited = wait_next_ms fuel clock position (ts + custom_epoch_ms)

    by_room :
        (z : Bool)
        → eqb next 0 ≡ z
        → g.last_ts_ms ≡ some ts
        → MadeNext g (if z then after_wait g waited else finish g ts next position)
    by_room true z e =
        waited-MadeNext g ts waited v e
          (wait_next_ms-later fuel clock position (ts + custom_epoch_ms))
    by_room false z e = elim (next_sequence g.sequence v.sequence_fits) [
      | inl n ↦ ground (arith, z, n)
      | inr n ↦ finish-IsNext g ts next v (ground (arith, n)) (λ l p. ground (arith, n, e, p))
    ]

    by_time :
        (b : Bool)
        → is_last g.last_ts_ms ts ≡ b
        → MadeNext g (
            if b
            then (if eqb next 0 then after_wait g waited else finish g ts next position)
            else finish g ts 0 position)
    by_time true e = by_room (eqb next 0) refl (ground (arith, e))
    by_time false e =
        finish-IsNext g ts 0 v (omega arith) (λ l p. ground (arith, e, h l p, p, v.sequence_fits))

-- A call on a valid generator that makes an id leaves it valid, of the same node, and with an id
-- that is above the last one, whatever the clock does: also when it stands or goes back.
pub generate_int-MadeNext :
    (fuel : ℕ) (clock : ℕ → ℕ) (position : ℕ) (g : Generator)
    → IsValid g
    → MadeNext g (generate_int fuel clock position g)
unfolding generate_int
generate_int-MadeNext fuel clock position g v = by_epoch (ltb (clock position) custom_epoch_ms)
  where
    ts : ℕ
    ts = held_back g.last_ts_ms (clock position - custom_epoch_ms)

    by_epoch :
        (b : Bool) → MadeNext g (if b then raised else generate_at fuel clock (suc position) g ts)
    by_epoch true = tt
    by_epoch false =
        generate_at-MadeNext fuel clock (suc position) g ts v (λ l p. ground (arith, p))
