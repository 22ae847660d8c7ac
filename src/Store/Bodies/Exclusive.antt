-- ===== src/Store/Bodies/Exclusive.antt =====
-- Claims of message bodies by several workers.
use imapped.Base.{ℕ, ◌≡◌, Bool, false, ◌&&◌, not, List, arith, All}
use imapped.Store.Sql.{member, All-order_by, All-take, All-map, claimed-All}
use imapped.Store.Tables.{Entry, Database}
use imapped.Store.Bodies.{claimable_ids, is_claimable, claim_pending_bodies, start_fetching}

-- No message that a claim takes is in a claim of the tables that it leaves behind, by any worker
-- or replica, for any mailbox, limit and number of attempts, and whatever rows other
-- transactions hold.
pub bodies_claim_exclusive :
    (returning : List Entry → List Entry) (locked locked' : ℕ → Bool)
    (mailbox mailbox' limit limit' most most' now : ℕ) (db : Database)
    → All
        (λ i. member i (claimable_ids locked mailbox limit most db) ≡ false)
        (claimable_ids locked' mailbox' limit' most'
          (claim_pending_bodies returning locked mailbox limit most now db).1)
unfolding claim_pending_bodies claimable_ids is_claimable start_fetching
bodies_claim_exclusive returning locked locked' mailbox mailbox' limit limit' most most' now db =
    All-map _ _ _ (
      All-take _ limit' _ (
        All-order_by _ _ _ (
          claimed-All (λ e. e.id) (claimable_ids locked mailbox limit most db) (start_fetching now)
            (λ e. is_claimable mailbox' most' e && not (locked' e.id)) (λ e. ground arith)
            db.entries)))
