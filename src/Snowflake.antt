-- ===== src/Snowflake.antt =====
-- The generator of backend/utils/snowflake.py: SnowflakeConfig, Snowflake.generate with its wait
-- for the clock, and Snowflake.parse. The clock is the list of the readings, in milliseconds, that
-- `_current_ms` returns one after another; `waiting` is a call that has used up the readings and
-- still waits. The lock of `generate` makes calls take turns, so a call is one function.
pub mod Layout
pub mod Order
pub mod Clock
pub mod Nodes
use Prim.Native.String.{String}
use mc_bd.Prelude.{
  ℕ, ◌+◌, ◌-◌, ◌^◌, ◌==◌, Bool, true, false, ◌&&◌, Option, none, some, List, [], ◌∷◌, leb,
  if◌then◌else◌,
}
use mc_bd.Prelude.Int.{ℤ, pos, negsuc, ◌+ℤ◌, ◌-ℤ◌, eqb_ℤ, ltb_ℤ, leb_ℤ, shl, shr, or, and}
use Prim.Native.Nat.{bit_and}
use mc_bd.Errors.{Error, server, plain, numbered}

-- SnowflakeConfig
abbrev pub worker_id_bits : ℕ
worker_id_bits = 5

abbrev pub datacenter_id_bits : ℕ
datacenter_id_bits = 5

abbrev pub sequence_bits : ℕ
sequence_bits = 12

abbrev pub max_worker_id : ℕ
max_worker_id = 2 ^ worker_id_bits - 1

abbrev pub max_datacenter_id : ℕ
max_datacenter_id = 2 ^ datacenter_id_bits - 1

abbrev pub sequence_mask : ℕ
sequence_mask = 2 ^ sequence_bits - 1

abbrev pub worker_id_shift : ℕ
worker_id_shift = sequence_bits

abbrev pub datacenter_id_shift : ℕ
datacenter_id_shift = sequence_bits + worker_id_bits

abbrev pub timestamp_left_shift : ℕ
timestamp_left_shift = sequence_bits + worker_id_bits + datacenter_id_bits

abbrev pub epoch : ℕ
epoch = 1262275200000

abbrev pub clock_backward_tolerance_ms : ℕ
clock_backward_tolerance_ms = 10000

-- The attributes of a Snowflake that `generate` reads: the node's numbers are those that `init`
-- has set, and `last_timestamp` starts at -1.
pub record Snowflake : Type 0 where
  pub datacenter_id : ℤ
  pub worker_id : ℤ
  pub sequence : ℕ
  pub last_timestamp : ℤ
  pub initialized : Bool

-- The state after `init` has chosen a node.
abbrev pub fresh : ℤ → ℤ → Snowflake
fresh d w = record {
  datacenter_id = d;
  worker_id = w;
  sequence = 0;
  last_timestamp = negsuc 0;
  initialized = true;
}

-- The 64-bit ID out of its four parts.
unfoldable pub compose : ℕ → ℤ → ℤ → ℕ → ℤ
compose timestamp d w sequence =
    or
      (or (or (shl (pos timestamp -ℤ pos epoch) timestamp_left_shift) (shl d datacenter_id_shift))
        (shl w worker_id_shift))
      (pos sequence)

-- Reads the clock until it shows a later millisecond.
unfoldable pub till_next_ms : ℤ → List ℕ → Option (ℕ × List ℕ)
till_next_ms last [] = none
till_next_ms last (ts ∷ rest) = elim (leb_ℤ (pos ts) last) [
  | true ↦ till_next_ms last rest
  | false ↦ some (ts, rest)
]

pub data Generated : Type 0 where
  issued : ℤ → Snowflake → List ℕ → Generated
  raised : Error → Snowflake → List ℕ → Generated
  waiting : Generated

-- `_till_next_ms`, and what follows once it returns
unfoldable pub after_wait : Option (ℕ × List ℕ) → (ℕ → List ℕ → Generated) → Generated
after_wait none k = waiting
after_wait (some (ts, rest)) k = k ts rest

-- Stores the state of this call and returns the ID.
unfoldable pub emit : Snowflake → ℕ → ℕ → List ℕ → Generated
emit s sequence timestamp clock =
    issued (compose timestamp s.datacenter_id s.worker_id sequence)
      (record s { sequence = sequence; last_timestamp = pos timestamp }) clock

-- The sequence number within one millisecond, and the wait when it wraps.
unfoldable pub number : Snowflake → ℕ → List ℕ → Generated
number s timestamp clock =
    let next = bit_and (s.sequence + 1) sequence_mask in
    if eqb_ℤ (pos timestamp) s.last_timestamp
    then (if next == 0
        then after_wait (till_next_ms s.last_timestamp clock) (emit s next)
        else emit s next timestamp clock)
    else emit s 0 timestamp clock

abbrev pub backward : ℕ → Error
backward ms = server (numbered "雪花 ID 生成失败，时钟回拨超过 " ms " ms，请立即联系系统管理员")

back_ms : ℤ → ℕ
back_ms (pos n) = n
back_ms (negsuc n) = 0

-- A clock that went back is waited for, up to the tolerance.
unfoldable pub generate_at : Snowflake → ℕ → List ℕ → Generated
unfolding back_ms
generate_at s timestamp clock =
    if ltb_ℤ (pos timestamp) s.last_timestamp
    then (if leb_ℤ (s.last_timestamp -ℤ pos timestamp) (pos clock_backward_tolerance_ms)
        then after_wait (till_next_ms s.last_timestamp clock) (number s)
        else raised (backward (back_ms (s.last_timestamp -ℤ pos timestamp))) s clock)
    else number s timestamp clock

unfoldable pub read_clock : Snowflake → List ℕ → Generated
read_clock s [] = waiting
read_clock s (timestamp ∷ rest) = generate_at s timestamp rest

-- Snowflake.generate
unfoldable pub generate : Snowflake → List ℕ → Generated
generate s clock =
    if s.initialized
    then read_clock s clock
    else raised (server (plain "雪花 ID 生成失败，雪花算法未初始化")) s clock

-- SnowflakeInfo, less the formatted date
pub record SnowflakeInfo : Type 0 where
  pub timestamp : ℤ
  pub datacenter_id : ℕ
  pub worker_id : ℕ
  pub sequence : ℕ

-- Snowflake.parse
unfoldable pub parse : ℤ → SnowflakeInfo
parse id = record {
  timestamp = shr id timestamp_left_shift +ℤ pos epoch;
  datacenter_id = and (shr id datacenter_id_shift) max_datacenter_id;
  worker_id = and (shr id worker_id_shift) max_worker_id;
  sequence = and id sequence_mask;
}
