-- ===== src/Syncer/Pool/Attempts.antt =====
-- The attempts at a batch, undisturbed, are Session.Do.
use imapped.Base.{ℕ, zero, suc}
use imapped.Upstream.Session.{Session, Out}
use imapped.Syncer.Bodies.{Batch, carry}
use imapped.Syncer.Pool.{
  BodyPass, Worker, opening, receiving, fetching, draining, ended, fetch_attempt, after_fetch,
}

module _ {C W : Type 0} (pass : BodyPass C W) where
  open pass use {server, storage, sets, lines, limits, mailbox}

  -- A worker alone: as long as it is at a batch, it goes on to the next attempt.
  unfoldable pub fetch_alone : ℕ → Worker C × (Batch × W) → Worker C × (Batch × W)
  fetch_alone zero r = r
  fetch_alone (suc fuel) (fetching s b left attempt, x) =
      fetch_alone fuel (fetch_attempt pass b left attempt s x)
  fetch_alone (suc fuel) (opening, x) = (opening, x)
  fetch_alone (suc fuel) (receiving s, x) = (receiving s, x)
  fetch_alone (suc fuel) (draining s e, x) = (draining s e, x)
  fetch_alone (suc fuel) (ended, x) = (ended, x)

  -- The worker behind Session.Do.
  abbrev pub settled : Out (carry {S = Batch} server) Unit → Worker C × (Batch × W)
  settled r = (after_fetch pass r.1 r.0, r.2)
