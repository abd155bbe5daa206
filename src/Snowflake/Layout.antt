-- ===== src/Snowflake/Layout.antt =====
-- The layout of an ID of backend/utils/snowflake.py: the shifts, `|` and masks as arithmetic.
use mc_bd.Prelude.{ℕ, ◌+◌, ◌-◌, ◌*◌, ◌/◌, ◌≤◌, ◌<◌, ◌≡◌, ◌≢◌, sym, ap, ◌∙◌, arith}
use mc_bd.Prelude.Int.{pos, ◌-ℤ◌, ◌+ℤ◌, shl, shr, or, and}
use mc_bd.Prelude.Bits.{or-eq-add, and-mask}
use mc_bd.Snowflake.{compose, parse, epoch}

-- A time after the epoch, and the other parts within their bits.
pub record IsFitting (t d w q : ℕ) : Type 0 where
  pub since_epoch : epoch ≤ t
  pub datacenter : d < 32
  pub worker : w < 32
  pub sequence : q < 4096

abbrev pub flat : ℕ → ℕ → ℕ → ℕ → ℕ
flat t d w q = (t - epoch) * 4194304 + d * 131072 + w * 4096 + q

pub compose-flat :
    (t d w q : ℕ) → IsFitting t d w q → compose t (pos d) (pos w) q ≡ pos (flat t d w q)
unfolding compose shl or ◌-ℤ◌
compose-flat t d w q h = ground (
  arith,
  or-eq-add 22 (t - epoch) (d * 131072) (omega arith),
  or-eq-add 17 ((t - epoch) * 32 + d) (w * 4096) (omega arith),
  or-eq-add 12 ((t - epoch) * 1024 + d * 32 + w) q (omega arith),
)

module _ (t d w q : ℕ) (h : IsFitting t d w q) where
  parse-flat :
      parse (pos (flat t d w q))
      ≡ record { timestamp = pos t; datacenter_id = d; worker_id = w; sequence = q }
  unfolding parse shr and ◌+ℤ◌
  parse-flat = ground (
    arith,
    h.since_epoch,
    and-mask 5 (flat t d w q / 131072),
    and-mask 5 (flat t d w q / 4096),
    and-mask 12 (flat t d w q),
  )

  -- Parsing a composed ID gives back its four parts, for every time from the epoch on and all
  -- parts that fit their bits.
  pub parse-compose :
      parse (compose t (pos d) (pos w) q)
      ≡ record { timestamp = pos t; datacenter_id = d; worker_id = w; sequence = q }
  parse-compose = rw (compose-flat t d w q h) parse-flat

-- IDs of different nodes are different, whatever their times and sequence numbers are, as long as
-- the parts fit their bits.
pub other_node_other_id :
    (t d w q t' d' w' q' : ℕ)
    → IsFitting t d w q
    → IsFitting t' d' w' q'
    → ¬ ((d ≡ d') × (w ≡ w'))
    → compose t (pos d) (pos w) q ≢ compose t' (pos d') (pos w') q'
other_node_other_id t d w q t' d' w' q' h k other same =
    let e = sym (parse-compose t d w q h) ∙ ap parse same ∙ parse-compose t' d' w' q' k in
    other (ap (λ i. i.datacenter_id) e, ap (λ i. i.worker_id) e)
