-- ===== src/Snowflake/Nodes/Claims.antt =====
-- Which node `acquire_node_id` of backend/utils/snowflake.py claims.
use mathlib.Core.Path.{subst}
use mc_bd.Prelude.{
  ℕ, zero, suc, ◌+◌, ◌≤◌, ◌<◌, ◌≡◌, inl, inr, refl, sym, ◌∙◌, Bool, true, false, not, ◌&&◌, Option,
  none, some, List, [], ◌∷◌, ◌++◌, Bool-cases, arith, if◌then◌else◌,
}
use mc_bd.Prelude.Int.{ℤ, pos, negsuc}
use mc_bd.Prelude.Text.{Text, text_eq, text_eq_refl}
use mc_bd.Errors.{Error, Result, ok, err}
use mc_bd.Redis.{Redis, is_some}
use mc_bd.Platform.{Platform}
use mc_bd.Snowflake.{Snowflake}
use mc_bd.Snowflake.Order.{IsReady}
use mc_bd.Snowflake.Nodes.{
  within, configured, after_acquire, node_key, node_ttl_seconds, is_occupied, try_node, or_else,
  or_next, try_workers, try_datacenters, acquired, acquire_node_id, occupied_nodes,
  node_redis_prefix, init, choose_node,
}

some_ne_none : {v : Text} → some v ≡ none → ⊥
some_ne_none e = cc

err_ne_ok : {x : Error} {h : Snowflake} → err x ≡ ok h → ⊥
err_ne_ok e = cc

ok_inj : {g h : Snowflake} → ok g ≡ ok h → g ≡ h
ok_inj e = cc

none_of : {b : Bool} {o : Option Text} → b ≡ not (is_some o) → b ≡ true → o ≡ none
none_of {o = none} e f = refl
none_of {o = some x} e f = absurd (ground arith)

module _ (R : Redis) (P : Platform) (value : Text) where
  open R use {Store, get, set_nx, set_nx-free, get-set_nx}

  -- The store `t` is `s` with one more key, that of a node which was free.
  pub record Claimed (s t : Store) (d w : ℕ) : Type 0 where
    pub datacenter_fits : d < 32
    pub worker_fits : w < 32
    pub free : get s (node_key d w) ≡ none
    pub held : get t (node_key d w) ≡ some value
    pub others : (j : Text) → text_eq (node_key d w) j ≡ false → get t j ≡ get s j

  abbrev Found : Store → Option (ℕ × ℕ) → Store → Type 0
  Found s (some (d, w)) t = Claimed s t d w
  Found s none t = (j : Text) → get t j ≡ get s j

  -- A claim in a store that reads the same is a claim.
  Found-same :
      (s s' : Store) (found : Option (ℕ × ℕ)) (t : Store)
      → ((j : Text) → get s' j ≡ get s j)
      → Found s' found t
      → Found s found t
  Found-same s s' (some (d, w)) t same c = record {
    datacenter_fits = c.datacenter_fits;
    worker_fits = c.worker_fits;
    free = sym (same (node_key d w)) ∙ c.free;
    held = c.held;
    others = λ j h. c.others j h ∙ same j;
  }
  Found-same s s' none t same c = λ j. c j ∙ same j

  module _ (occupied : List (ℕ × ℕ)) where
    get-set_ttl :
        (s : Store) (k j : Text)
        → get (set_nx s k value node_ttl_seconds).1 j
          ≡ (if text_eq k j && not (is_some (get s k)) then some value else get s j)
    get-set_ttl s k j = get-set_nx s k value node_ttl_seconds j (omega arith)

    try_node-registered :
        (d w : ℕ) (s : Store)
        → d < 32
        → w < 32
        → (try_node R P value occupied d w s).0 ≡ true
        → Claimed s (try_node R P value occupied d w s).1 d w
    unfolding try_node
    try_node-registered d w s hd hw e = elim (Bool-cases (is_occupied d w occupied)) [
      | inl there ↦ absurd (ground (arith, there, e))
      | inr away ↦
          let k = node_key d w in
          let f : (set_nx s k value node_ttl_seconds).0 ≡ true = rw (away, try_node) at e in
          let gone : get s k ≡ none = none_of (set_nx-free s k value node_ttl_seconds) f in
          record {
            datacenter_fits = hd;
            worker_fits = hw;
            free = gone;
            held = rw away (rw (get-set_ttl s k k) (simp (gone, text_eq_refl k)));
            others = λ j h. rw away (rw (get-set_ttl s k j) (rw h));
          }
    ]

    try_node-refused :
        (d w : ℕ) (s : Store) (j : Text)
        → (try_node R P value occupied d w s).0 ≡ false
        → get (try_node R P value occupied d w s).1 j ≡ get s j
    unfolding try_node
    try_node-refused d w s j e = elim (Bool-cases (is_occupied d w occupied)) [
      | inl there ↦ rw there
      | inr away ↦
          let k = node_key d w in
          let f : (set_nx s k value node_ttl_seconds).0 ≡ false = rw (away, try_node) at e in
          let present : is_some (get s k) ≡ true =
            ground (arith, set_nx-free s k value node_ttl_seconds) in
          rw away (rw (get-set_ttl s k j) (ground arith))
    ]

    try_workers-Found :
        (d n w : ℕ) (s : Store)
        → d < 32
        → w + n ≤ 32
        → Found s
            (try_workers R P value occupied d n w s).0
            (try_workers R P value occupied d n w s).1
    unfolding try_workers or_else
    try_workers-Found d zero w s hd h = λ j. refl
    try_workers-Found d (suc n) w s hd h = elim (Bool-cases (try_node R P value occupied d w s).0) [
      | inl won ↦ rw won (try_node-registered d w s hd (omega arith) won)
      | inr lost ↦ rw lost (
          Found-same s (try_node R P value occupied d w s).1 _ _
            (λ j. try_node-refused d w s j lost)
            (try_workers-Found d n (suc w) (try_node R P value occupied d w s).1 hd (omega arith)))
    ]

    after_workers :
        (s : Store) (found : Option (ℕ × ℕ)) (t : Store) (k : Store → Option (ℕ × ℕ) × Store)
        → Found s found t
        → ((u : Store) → Found u (k u).0 (k u).1)
        → Found s (or_next R P found t k).0 (or_next R P found t k).1
    unfolding or_next
    after_workers s (some node) t k f g = f
    after_workers s none t k f g = Found-same s t _ _ f (g t)

    try_datacenters-Found :
        (n d : ℕ) (s : Store)
        → d + n ≤ 32
        → Found s
            (try_datacenters R P value occupied n d s).0
            (try_datacenters R P value occupied n d s).1
    unfolding try_datacenters
    try_datacenters-Found zero d s h = λ j. refl
    try_datacenters-Found (suc n) d s h =
        after_workers s _ _ _ (try_workers-Found d 32 0 s (omega arith) (omega arith))
          (λ u. try_datacenters-Found n (suc d) u (omega arith))

  acquired-node :
      (found : Option (ℕ × ℕ)) (d w : ℕ) → acquired R P found ≡ ok (d, w) → found ≡ some (d, w)
  unfolding acquired
  acquired-node none d w e = cc
  acquired-node (some x) d w e = cc

  -- The node that is acquired has numbers that fit their bits, its key was free, and now holds the
  -- caller's value; no other key has changed.
  pub acquire_node_id-Claimed :
      (s : Store) (d w : ℕ)
      → (acquire_node_id R P value s).0 ≡ ok (d, w)
      → Claimed s (acquire_node_id R P value s).1 d w
  unfolding acquire_node_id
  acquire_node_id-Claimed s d w e =
      let occupied = occupied_nodes R P (R.scan s (node_redis_prefix ++ b':' ∷ [])) in
      let t = try_datacenters R P value occupied 32 0 s in
      subst (λ found. Found s found t.1) (acquired-node t.0 d w e)
        (try_datacenters-Found occupied 32 0 s (omega arith))

  -- While a process holds its node, no other process acquires it: in any store in which the key of
  -- a node has a value, the node that is acquired is another one.
  pub held_node_kept :
      (s : Store) (d w x y : ℕ) (v : Text)
      → get s (node_key d w) ≡ some v
      → (acquire_node_id R P value s).0 ≡ ok (x, y)
      → ¬ ((d ≡ x) × (w ≡ y))
  held_node_kept s d w x y v held e (same_d, same_w) =
      let gone : get s (node_key x y) ≡ none = (acquire_node_id-Claimed s x y e).free in
      let here : get s (node_key x y) ≡ some v = rw (← same_d, ← same_w) held in
      absurd (some_ne_none (sym here ∙ gone))

  within-pos : (z : ℤ) (m : ℕ) → within R P z m ≡ true → (n : ℕ) × (z ≡ pos n) × (n ≤ m)
  unfolding within
  within-pos (pos n) m h = (n, refl, ground arith)
  within-pos (negsuc n) m h = absurd (ground arith)

  configured-IsReady :
      (g h : Snowflake) (d w : ℤ)
      → g.sequence < 4096
      → configured R P g d w ≡ ok h
      → (x : ℕ) × (y : ℕ) × IsReady x y h
  unfolding configured
  configured-IsReady g h d w fits e = elim (Bool-cases (within R P d 31)) [
    | inr far ↦ absurd (err_ne_ok (rw (far, configured) at e))
    | inl near ↦ elim (Bool-cases (within R P w 31)) [
      | inr far ↦ absurd (err_ne_ok (rw (near, far, configured) at e))
      | inl close ↦
          let (x, dx, xm) = within-pos d 31 near in
          let (y, wy, ym) = within-pos w 31 close in
          let same = ok_inj (rw (near, close, configured) at e) in
          (
            x,
            y,
            record {
              datacenter = rw (← same) dx;
              worker = rw (← same) wy;
              datacenter_fits = omega (arith, xm);
              worker_fits = omega (arith, ym);
              sequence_fits = rw (← same) fits;
            },
          )
    ]
  ]

  after_acquire-IsReady :
      (g h : Snowflake) (r : Result (ℕ × ℕ))
      → g.sequence < 4096
      → after_acquire R P g r ≡ ok h
      → (x : ℕ) × (y : ℕ) × IsReady x y h
  unfolding after_acquire
  after_acquire-IsReady g h (err e) fits k = absurd (err_ne_ok k)
  after_acquire-IsReady g h (ok (d, w)) fits k = configured-IsReady g h (pos d) (pos w) fits k

  -- An initialisation that returns leaves a generator on a node whose numbers fit their bits,
  -- whether they come from the settings or from Redis.
  pub init-IsReady :
      (datacenter worker : Option ℤ) (g h : Snowflake) (s : Store)
      → g.initialized ≡ false
      → g.sequence < 4096
      → (init R P datacenter worker value g s).0 ≡ ok h
      → (d : ℕ) × (w : ℕ) × IsReady d w h
  unfolding init choose_node
  init-IsReady (some d) (some w) g h s fresh fits e =
      configured-IsReady g h d w fits (rw (fresh, init) at e)
  init-IsReady (some d) none g h s fresh fits e = absurd (err_ne_ok (rw (fresh, init) at e))
  init-IsReady none (some w) g h s fresh fits e = absurd (err_ne_ok (rw (fresh, init) at e))
  init-IsReady none none g h s fresh fits e =
      after_acquire-IsReady g h (acquire_node_id R P value s).0 fits (rw (fresh, init) at e)
