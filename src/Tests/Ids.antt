-- ===== src/Tests/Ids.antt =====
-- Instances of the theorems on the IDs of backend/utils/snowflake.py.
use mc_bd.Prelude.{false, some, ℕ, ◌≡◌, refl, [], ◌∷◌, arith}
use mc_bd.Prelude.Int.{pos, ◌<ℤ◌, ◌≤ℤ◌, ◌-ℤ◌}
use mc_bd.Prelude.Text.{Text, codes, text_eq, decimal, starts_with, read_digits}
use mc_bd.Errors.{ok}
use mc_bd.Action.{World}
use mc_bd.Keys.{session_key}
use mc_bd.Redis.Memory.{memory, find, matching, claim}
use mc_bd.Platform.Concrete.{concrete}
use mc_bd.Tests.Data.{world}
use mc_bd.Snowflake.Nodes.{
  node_key, node_redis_prefix, acquire_node_id, init, try_datacenters, try_workers, try_node,
  is_occupied, occupied_nodes, split_colon,
}
use mc_bd.Snowflake.Nodes.Claims.{held_node_kept}
use mc_bd.Snowflake.{Snowflake, fresh, generate, clock_backward_tolerance_ms}
use mc_bd.Snowflake.Layout.{IsFitting}
use mc_bd.Snowflake.Order.{SinceEpoch, issue_all, Increasing, IsReady, issue_all-Increasing}
use mc_bd.Snowflake.Clock.{Issued, generate_returns}

-- A day in 2025
abbrev today : ℕ
today = 1750000000000

abbrev later : ℕ
later = 1750000000001

abbrev node : Snowflake
node = fresh (pos 3) (pos 7)

-- The node's generator at its last number of one millisecond
abbrev busy : Snowflake
busy = record node { sequence = 4095; last_timestamp = pos today }

-- The first reading is a second behind the second one.
since : SinceEpoch (today ∷ later ∷ [])
since = (omega arith, (omega arith, tt))

node-IsReady : IsReady 3 7 node
node-IsReady = record {
  datacenter = refl;
  worker = refl;
  datacenter_fits = omega arith;
  worker_fits = omega arith;
  sequence_fits = omega arith;
}

issue_all-Increasing_example :
    Increasing (issue_all node ((today ∷ later ∷ []) ∷ (today ∷ later ∷ []) ∷ []))
issue_all-Increasing_example =
    issue_all-Increasing 3 7 node ((today ∷ later ∷ []) ∷ (today ∷ later ∷ []) ∷ []) node-IsReady
      (since, (since, tt))

near : busy.last_timestamp -ℤ pos today ≤ℤ pos clock_backward_tolerance_ms
unfolding ◌-ℤ◌
near = omega arith

ahead : busy.last_timestamp <ℤ pos later
ahead = omega arith

generate_returns_example : Issued (generate busy (today ∷ today ∷ later ∷ []))
generate_returns_example = generate_returns busy today (today ∷ []) later [] refl near ahead

other : IsFitting today 3 8 4095
other = record {
  since_epoch = omega arith;
  datacenter = omega arith;
  worker = omega arith;
  sequence = omega arith;
}

workers_differ : ¬ (◌≡◌ {A = ℕ} 3 3 × ◌≡◌ {A = ℕ} 7 8)
workers_differ (a, b) = omega arith

-- Node (0, 0) is held by another process.
abbrev held : World memory concrete
held = world ((node_key 0 0, some (codes "pid:1")) ∷ [])

node_there : memory.get held.store (node_key 0 0) ≡ some (codes "pid:1")
unfolding find text_eq node_key decimal session_key
node_there = refl

abbrev process : Text
process = codes "pid:2"

next_acquired : (acquire_node_id memory concrete process held.store).0 ≡ ok (0, 1)
unfolding acquire_node_id try_datacenters try_workers try_node is_occupied occupied_nodes
    split_colon node_key node_redis_prefix session_key decimal find text_eq matching starts_with
    claim read_digits
next_acquired = refl

held_node_kept_example : ¬ (◌≡◌ {A = ℕ} 0 0 × ◌≡◌ {A = ℕ} 0 1)
held_node_kept_example =
    held_node_kept memory concrete process held.store 0 0 0 1 (codes "pid:1") node_there
      next_acquired

abbrev unset : Snowflake
unset = record node { initialized = false }

unset_starts :
    (init memory concrete (some (pos 3)) (some (pos 7)) process unset held.store).0 ≡ ok node
unfolding init
unset_starts = refl
