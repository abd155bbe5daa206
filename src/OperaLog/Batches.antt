-- ===== src/OperaLog/Batches.antt =====
-- The batches of backend/common/queue.py.
use mc_bd.Prelude.{ℕ, zero, suc, ◌≤◌, ◌<◌, ◌≡◌, refl, ap, List, [], ◌∷◌, ◌++◌, length, arith}
use mc_bd.OperaLog.{batch_dequeue}

-- A batch holds at most `n` entries, and fewer only if nothing is left; the batch and what is left
-- are the queue, in its order.
pub batch_dequeue_splits :
    {A : Type 0} (n : ℕ) (queue : List A)
    → let (items, rest) = batch_dequeue n queue in
      (items ++ rest ≡ queue) × (length items ≤ n) × (length items < n → rest ≡ [])
unfolding batch_dequeue
batch_dequeue_splits zero queue = (refl, omega arith, λ h. absurd (omega arith))
batch_dequeue_splits (suc n) [] = (refl, omega arith, λ h. refl)
batch_dequeue_splits (suc n) (x ∷ queue) =
    let (same, few, all) = batch_dequeue_splits n queue in
    (ap (λ l. x ∷ l) same, omega (arith, few), λ h. all (omega arith))
