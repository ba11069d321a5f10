-- ===== src/Ids/Snowflake.antt =====
-- `SnowflakeIdGenerator.generate_int` of packages/common/src/common/ids.py, under its lock. The clock
-- is a series of readings; the loop that waits for the next millisecond has fuel.
use Prim.Native.Nat.{bit_and, bit_or}
use crypto_derivative_algo_t.Prelude.{
  ℕ, zero, suc, ◌+◌, ◌-◌, ◌≡◌, refl, List, [], ◌∷◌, Bool, false, Option, none, some, ltb, leb, eqb,
  if◌then◌else◌,
}
use crypto_derivative_algo_t.Ids.Binary.{shift_left}

-- CUSTOM_EPOCH_MS
abbrev pub custom_epoch_ms : ℕ
custom_epoch_ms = 1704067200000

-- NODE_ID_SHIFT and TIMESTAMP_SHIFT
abbrev pub node_id_shift : ℕ
node_id_shift = 12

abbrev pub timestamp_shift : ℕ
timestamp_shift = 22

-- MAX_NODE_ID and MAX_SEQUENCE
abbrev pub max_node_id : ℕ
max_node_id = 1023

abbrev pub max_sequence : ℕ
max_sequence = 4095

-- The last time is -1, here none, until an id is made.
pub record Generator : Type 0 where
  pub node_id : ℕ
  pub last_ts_ms : Option ℕ
  pub sequence : ℕ

-- An id with the generator and the number of readings that are used up; a ValueError; or the fuel
-- is spent while the clock stands.
pub data Outcome : Type 0 where
  made : ℕ → Generator → ℕ → Outcome
  raised : Outcome
  waiting : Outcome

-- _wait_next_ms
unfoldable pub wait_next_ms : ℕ → (ℕ → ℕ) → ℕ → ℕ → Option (ℕ × ℕ)
wait_next_ms zero clock position last = none
wait_next_ms (suc fuel) clock position last =
    let rest = wait_next_ms fuel clock (suc position) last in
    if leb (clock position) last then rest else some (clock position, suc position)

-- The id of a time, a node and a sequence number.
unfoldable pub join_parts : ℕ → ℕ → ℕ → ℕ
join_parts ts node_id sequence =
    bit_or (bit_or (shift_left ts timestamp_shift) (shift_left node_id node_id_shift)) sequence

-- The time that is used: not before the last one.
abbrev pub held_back : Option ℕ → ℕ → ℕ
held_back none ts = ts
held_back (some last) ts = if ltb ts last then last else ts

abbrev pub is_last : Option ℕ → ℕ → Bool
is_last none ts = false
is_last (some last) ts = eqb ts last

abbrev pub finish : Generator → ℕ → ℕ → ℕ → Outcome
finish g ts sequence position =
    made (join_parts ts g.node_id sequence) (record g { last_ts_ms = some ts; sequence = sequence })
      position

abbrev pub after_wait : Generator → Option (ℕ × ℕ) → Outcome
after_wait g none = waiting
after_wait g (some (ts, position)) = finish g (ts - custom_epoch_ms) 0 position

unfoldable pub generate_at : ℕ → (ℕ → ℕ) → ℕ → Generator → ℕ → Outcome
generate_at fuel clock position g ts =
    let next = bit_and (g.sequence + 1) max_sequence in
    if is_last g.last_ts_ms ts
    then if eqb next 0
      then after_wait g (wait_next_ms fuel clock position (ts + custom_epoch_ms))
      else finish g ts next position
    else finish g ts 0 position

-- generate_int
unfoldable pub generate_int : ℕ → (ℕ → ℕ) → ℕ → Generator → Outcome
generate_int fuel clock position g =
    if ltb (clock position) custom_epoch_ms
    then raised
    else generate_at fuel clock (suc position) g
        (held_back g.last_ts_ms (clock position - custom_epoch_ms))

-- As many calls as the first number says, and the ids that they return, the first first. A call
-- that raises ends the series.
unfoldable pub generate_many : ℕ → ℕ → (ℕ → ℕ) → ℕ → Generator → List ℕ
generate_many zero fuel clock position g = []
generate_many (suc n) fuel clock position g = elim (generate_int fuel clock position g) [
  | made id g' position' ↦ id ∷ generate_many n fuel clock position' g'
  | raised ↦ []
  | waiting ↦ []
]

two_ids_test :
    generate_many 2 0
      (λ n. custom_epoch_ms + 5)
      0
      (record { node_id = 3; last_ts_ms = none; sequence = 0 })
    ≡ 20983808 ∷ 20983809 ∷ []
unfolding generate_many generate_int generate_at join_parts shift_left
two_ids_test = refl
