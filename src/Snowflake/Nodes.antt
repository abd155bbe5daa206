-- ===== src/Snowflake/Nodes.antt =====
-- SnowflakeNodeManager of backend/utils/snowflake.py and Snowflake.init: how a process gets the
-- numbers of its node. `value` is the text with the process and the time that it stores. No other
-- process writes between the scan and the claim, and the heartbeat keeps the key alive.
pub mod Claims
use mc_bd.Prelude.{
  ℕ, zero, suc, ◌+◌, ◌-◌, ◌==◌, leb, Bool, true, false, not, ◌&&◌, ◌||◌, Option, none, some, List,
  [], ◌∷◌, ◌++◌, length, if◌then◌else◌,
}
use mc_bd.Prelude.Int.{ℤ, pos, leb_ℤ}
use mc_bd.Prelude.Text.{Text, codes, decimal}
use mc_bd.Errors.{Error, Result, ok, err, server, plain}
use mc_bd.Redis.{Redis}
use mc_bd.Platform.{Platform}
use mc_bd.Keys.{session_key}
use mc_bd.Snowflake.{Snowflake, max_datacenter_id, max_worker_id}

-- self.node_redis_prefix
unfoldable pub node_redis_prefix : Text
node_redis_prefix = codes "mc:snowflake:nodes"

-- SNOWFLAKE_NODE_TTL_SECONDS
abbrev pub node_ttl_seconds : ℕ
node_ttl_seconds = 60

-- f'{prefix}:{datacenter_id}:{worker_id}'
unfoldable pub node_key : ℕ → ℕ → Text
unfolding node_redis_prefix session_key
node_key datacenter_id worker_id = session_key node_redis_prefix datacenter_id (decimal worker_id)

-- The first piece of a split grows by one character.
onto : ℕ → List Text → List Text
onto c [] = (c ∷ []) ∷ []
onto c (t ∷ ts) = (c ∷ t) ∷ ts

-- key.split(':')
unfoldable pub split_colon : Text → List Text
unfolding onto
split_colon [] = [] ∷ []
split_colon (c ∷ t) = let rest = split_colon t in if c == b':' then [] ∷ rest else onto c rest

-- parts[-2] and parts[-1]
last_two : List Text → Option (Text × Text)
last_two [] = none
last_two (a ∷ []) = none
last_two (a ∷ b ∷ []) = some (a, b)
last_two (a ∷ b ∷ c ∷ rest) = last_two (b ∷ c ∷ rest)

-- (datacenter_id, worker_id) in occupied_nodes
unfoldable pub is_occupied : ℕ → ℕ → List (ℕ × ℕ) → Bool
is_occupied d w [] = false
is_occupied d w ((x, y) ∷ nodes) = (x == d && y == w) || is_occupied d w nodes

both : Option ℕ → Option ℕ → List (ℕ × ℕ) → List (ℕ × ℕ)
both (some d) (some w) nodes = (d, w) ∷ nodes
both d w nodes = nodes

abbrev pub exhausted : Error
exhausted = server (plain "无可用的雪花算法节点，节点已耗尽")

module _ (R : Redis) (P : Platform) where
  node_of : Option (Text × Text) → List (ℕ × ℕ) → List (ℕ × ℕ)
  unfolding both
  node_of none nodes = nodes
  node_of (some (d, w)) nodes = both (P.int_of d) (P.int_of w) nodes

  unfoldable pub occupied_nodes : List Text → List (ℕ × ℕ)
  unfolding node_of last_two
  occupied_nodes [] = []
  occupied_nodes (key ∷ keys) =
      let rest = occupied_nodes keys in
      let parts = split_colon key in
      if leb 5 (length parts) then node_of (last_two parts) rest else rest

  -- `(d, w) not in occupied_nodes and await self._register(d, w)`
  unfoldable pub try_node : Text → List (ℕ × ℕ) → ℕ → ℕ → R.Store → Bool × R.Store
  try_node value occupied d w s =
      if is_occupied d w occupied
      then (false, s)
      else R.set_nx s (node_key d w) value node_ttl_seconds

  or_else : Bool → R.Store → ℕ × ℕ → (R.Store → Option (ℕ × ℕ) × R.Store) → Option (ℕ × ℕ) × R.Store
  or_else true s node k = (some node, s)
  or_else false s node k = k s

  -- The inner loop, over the `n` worker numbers from `w` on.
  unfoldable pub try_workers : Text → List (ℕ × ℕ) → ℕ → ℕ → ℕ → R.Store → Option (ℕ × ℕ) × R.Store
  unfolding or_else
  try_workers value occupied d zero w s = (none, s)
  try_workers value occupied d (suc n) w s =
      let (registered, s') = try_node value occupied d w s in
      or_else registered s' (d, w) (λ t. try_workers value occupied d n (suc w) t)

  or_next :
      Option (ℕ × ℕ) → R.Store → (R.Store → Option (ℕ × ℕ) × R.Store) → Option (ℕ × ℕ) × R.Store
  or_next (some node) s k = (some node, s)
  or_next none s k = k s

  -- The outer loop, over the `n` datacenter numbers from `d` on.
  unfoldable pub try_datacenters : Text → List (ℕ × ℕ) → ℕ → ℕ → R.Store → Option (ℕ × ℕ) × R.Store
  unfolding or_next
  try_datacenters value occupied zero d s = (none, s)
  try_datacenters value occupied (suc n) d s =
      let (found, s') = try_workers value occupied d (max_worker_id + 1) 0 s in
      or_next found s' (λ t. try_datacenters value occupied n (suc d) t)

  acquired : Option (ℕ × ℕ) → Result (ℕ × ℕ)
  acquired none = err exhausted
  acquired (some node) = ok node

  -- acquire_node_id
  unfoldable pub acquire_node_id : Text → R.Store → Result (ℕ × ℕ) × R.Store
  unfolding acquired
  acquire_node_id value s =
      let occupied = occupied_nodes (R.scan s (node_redis_prefix ++ b':' ∷ [])) in
      let (found, s') = try_datacenters value occupied (max_datacenter_id + 1) 0 s in
      (acquired found, s')

  -- release, once the numbers are known
  unfoldable pub release : ℕ → ℕ → R.Store → R.Store
  release datacenter_id worker_id s = R.remove s (node_key datacenter_id worker_id)

  -- `0 <= x <= max`
  within : ℤ → ℕ → Bool
  within x max = leb_ℤ (pos 0) x && leb_ℤ x (pos max)

  configured : Snowflake → ℤ → ℤ → Result Snowflake
  unfolding within
  configured g d w =
      if not (within d max_datacenter_id)
      then err (server (plain "雪花算法数据中心配置失败，请联系系统管理员"))
      else if not (within w max_worker_id)
      then err (server (plain "雪花算法工作机器配置失败，请联系系统管理员"))
      else ok (record g { datacenter_id = d; worker_id = w; initialized = true })

  after_acquire : Snowflake → Result (ℕ × ℕ) → Result Snowflake
  unfolding configured
  after_acquire g (err e) = err e
  after_acquire g (ok (d, w)) = configured g (pos d) (pos w)

  choose_node : Option ℤ → Option ℤ → Text → Snowflake → R.Store → Result Snowflake × R.Store
  unfolding configured after_acquire
  choose_node (some d) (some w) value g s = (configured g d w, s)
  choose_node none none value g s = let (r, s') = acquire_node_id value s in (after_acquire g r, s')
  choose_node d w value g s = (err (server (plain "雪花算法配置失败，请联系系统管理员")), s)

  -- Snowflake.init, with the two settings of the environment
  unfoldable pub init :
      Option ℤ → Option ℤ → Text → Snowflake → R.Store → Result Snowflake × R.Store
  unfolding choose_node
  init datacenter_setting worker_setting value g s =
      if g.initialized then (ok g, s) else choose_node datacenter_setting worker_setting value g s
