-- ===== src/Syncer/Pool/Handover.antt =====
-- What the producer of a body pass claims, and what the workers get.
use imapped.Base.{ℕ, ◌≡◌, refl, Option, none, some, List, [], ◌∷◌, ◌++◌, map, concat, if◌then◌else◌}
use imapped.Upstream.Errors.{Error, Result, ok, err, is_too_many_connections}
use imapped.Upstream.Session.{Session, SelectedMailbox}
use imapped.Syncer.Planner.{SizedUid}
use imapped.Syncer.Pool.{
  BodyPass, Producer, claiming, waiting, sending, stopped, Worker, opening, receiving, fetching,
  draining, ended, Pool, Move, produce, hear, poll, cancel, metadata_ends, work, elsewhere, sized,
  pending_body, claim_now, move, worker_at, open_with, opened, or_stay, leave, record_worker,
}

-- The batches that the producer still holds.
abbrev pub to_send : Producer → List (List SizedUid)
to_send (sending finished bs) = bs
to_send (claiming finished) = []
to_send waiting = []
to_send (stopped e) = []

abbrev pub IsNotCancel : {W : Type 0} → Move W → Type 0
IsNotCancel cancel = ⊥
IsNotCancel produce = Unit
IsNotCancel hear = Unit
IsNotCancel poll = Unit
IsNotCancel metadata_ends = Unit
IsNotCancel (work i) = Unit
IsNotCancel (elsewhere db w) = Unit

-- The batch that a worker in one of its loops gets from the producer.
abbrev offered : Producer → List (List SizedUid)
offered (sending finished (b ∷ bs)) = b ∷ []
offered (sending finished []) = []
offered (claiming finished) = []
offered waiting = []
offered (stopped e) = []

abbrev gets : {C : Type 0} → Option (Worker C) → Producer → List (List SizedUid)
gets (some (receiving s)) p = offered p
gets (some (draining s e)) p = offered p
gets (some opening) p = []
gets (some (fetching s b left attempt)) p = []
gets (some ended) p = []
gets none p = []

unfoldable pub handed_by : {C W : Type 0} → Move W → Pool C W → List (List SizedUid)
handed_by (work i) p = gets (worker_at i p.workers) p.producer
handed_by produce p = []
handed_by hear p = []
handed_by poll p = []
handed_by cancel p = []
handed_by metadata_ends p = []
handed_by (elsewhere db w) p = []

module _ {C W : Type 0} (pass : BodyPass C W) where
  open pass use {server, storage}

  -- The rows that a round of the producer claims, as messages to plan.
  unfoldable pub claimed_rows : Pool C W → List SizedUid
  claimed_rows p = elim (server.ctx_err p.world) [
    | some e ↦ []
    | none ↦ elim (storage.store_err p.world).0 [
      | some e ↦ []
      | none ↦ map sized (
          map (pending_body p.batch.db) (claim_now pass p.batch.db (storage.store_err p.world).1).0)
    ]
  ]

  unfoldable pub claims_at : Producer → Pool C W → List SizedUid
  unfolding claimed_rows
  claims_at (claiming finished) p = claimed_rows p
  claims_at (sending finished bs) p = []
  claims_at waiting p = []
  claims_at (stopped e) p = []

  unfoldable pub claimed_by : Move W → Pool C W → List SizedUid
  unfolding claims_at
  claimed_by produce p = claims_at p.producer p
  claimed_by (work i) p = []
  claimed_by hear p = []
  claimed_by poll p = []
  claimed_by cancel p = []
  claimed_by metadata_ends p = []
  claimed_by (elsewhere db w) p = []

  abbrev pub after : Move W → Pool C W → Pool C W
  after m p = or_stay pass p (move pass m p)

  -- Along a schedule.
  unfoldable pub claimed : List (Move W) → Pool C W → List SizedUid
  unfolding claimed_by
  claimed [] p = []
  claimed (m ∷ ms) p = claimed_by m p ++ claimed ms (after m p)

  unfoldable pub handed : List (Move W) → Pool C W → List (List SizedUid)
  unfolding handed_by
  handed [] p = []
  handed (m ∷ ms) p = handed_by m p ++ handed ms (after m p)

  -- What the producer holds after a move from a state in which it is `a`.
  abbrev held : Producer → Option (Pool C W) → List SizedUid
  held a none = concat (to_send a)
  held a (some q) = concat (to_send q.producer)

  record_worker-producer :
      (e : Option Error) (p : Pool C W) → (record_worker e p).producer ≡ p.producer
  unfolding record_worker
  record_worker-producer none p = refl
  record_worker-producer (some e) p = refl

  pub leave-producer :
      (i : ℕ) (e : Option Error) (s : Session C) (p : Pool C W)
      → (leave pass i e s p).producer ≡ p.producer
  unfolding leave
  leave-producer i e s p = record_worker-producer e p

  opened-producer :
      (i : ℕ) (r : Result SelectedMailbox × Session C × W) (p : Pool C W)
      → (opened pass i r p).producer ≡ p.producer
  unfolding opened
  opened-producer i (ok selected, s, w) p = refl
  opened-producer i (err e, s, w) p =
      leave-producer i (if is_too_many_connections e then none else some e) s
        (record p { world = w })

  pub open_with-producer :
      (e : Option Error) (i : ℕ) (p : Pool C W) → (open_with pass e i p).producer ≡ p.producer
  unfolding open_with
  open_with-producer none i p = opened-producer i _ p
  open_with-producer (some e) i p = refl
