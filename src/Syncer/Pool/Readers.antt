-- ===== src/Syncer/Pool/Readers.antt =====
-- A worker that reads from the channel reads until the producer closes it.
use imapped.Base.{
  ℕ, zero, suc, ◌≡◌, refl, ◌∙◌, sym, subst, true, false, Bool-cases, Bool, Option, none, some, List,
  [], ◌∷◌, ◌⊎◌, All, inl, inr, Option-cases,
}
use imapped.Upstream.Errors.{Error, Result, ok, err}
use imapped.Upstream.Session.{Session, SelectedMailbox, Round, returns, retries}
use imapped.Syncer.Planner.{SizedUid}
use imapped.Syncer.Bodies.{Batch}
use imapped.Syncer.Claims.{PendingBody}
use imapped.Syncer.Pool.{
  BodyPass, Producer, claiming, waiting, sending, stopped, Worker, opening, receiving, fetching,
  draining, ended, Pool, Move, produce, hear, poll, cancel, metadata_ends, work, elsewhere, move,
  run, worker_at, set_worker, or_stay, produce_move, hear_move, poll_move, cancel_move, work_move,
  receive, claim_work, plan_claimed, leave, record_worker, fetch_move, fetch_attempt, after_attempt,
  next_attempt, after_fetch, open_mailbox, open_with, opened,
}
use imapped.Syncer.Pool.Handover.{leave-producer, open_with-producer}
use imapped.Syncer.Pool.Progress.{IsEnded, IsStopped, IsOffering, CanGoOn, never_waits}

-- The worker has opened the mailbox and has not returned.
abbrev pub IsReading : {C : Type 0} → Option (Worker C) → Type 0
IsReading none = ⊥
IsReading (some opening) = ⊥
IsReading (some ended) = ⊥
IsReading (some (receiving s)) = Unit
IsReading (some (fetching s b left attempt)) = Unit
IsReading (some (draining s e)) = Unit

module _ {C : Type 0} where
  set-IsReading :
      (i j : ℕ) (v : Worker C) (ws : List (Worker C))
      → IsReading (some v)
      → IsReading (worker_at i ws)
      → IsReading (worker_at i (set_worker j v ws))
  set-IsReading i j v [] h r = r
  set-IsReading zero zero v (w ∷ ws) h r = h
  set-IsReading zero (suc j) v (w ∷ ws) h r = r
  set-IsReading (suc i) zero v (w ∷ ws) h r = r
  set-IsReading (suc i) (suc j) v (w ∷ ws) h r = set-IsReading i j v ws h r

  set_other-IsReading :
      (i j : ℕ) (v : Worker C) (ws : List (Worker C))
      → (IsReading (worker_at j ws) → ⊥)
      → IsReading (worker_at i ws)
      → IsReading (worker_at i (set_worker j v ws))
  set_other-IsReading i j v [] h r = r
  set_other-IsReading zero zero v (w ∷ ws) h r = absurd (h r)
  set_other-IsReading zero (suc j) v (w ∷ ws) h r = r
  set_other-IsReading (suc i) zero v (w ∷ ws) h r = r
  set_other-IsReading (suc i) (suc j) v (w ∷ ws) h r = set_other-IsReading i j v ws h r

  reading_lives : (i : ℕ) (ws : List (Worker C)) → All IsEnded ws → IsReading (worker_at i ws) → ⊥
  reading_lives i [] e r = r
  reading_lives zero (opening ∷ ws) e r = r
  reading_lives zero (ended ∷ ws) e r = r
  reading_lives zero (receiving s ∷ ws) e r = e.0
  reading_lives zero (fetching s b left attempt ∷ ws) e r = e.0
  reading_lives zero (draining s x ∷ ws) e r = e.0
  reading_lives (suc i) (w ∷ ws) e r = reading_lives i ws e.1 r

module _ {C W : Type 0} (pass : BodyPass C W) (i : ℕ) where
  -- Worker `i` reads, or it need not any more.
  abbrev Serves : Pool C W → Type 0
  Serves p = IsReading (worker_at i p.workers) ⊎ IsStopped p.producer

  plan_claimed-workers :
      (f : Bool) (cs : List PendingBody) (p : Pool C W)
      → (plan_claimed pass f cs p).workers ≡ p.workers
  unfolding plan_claimed
  plan_claimed-workers f [] p = refl
  plan_claimed-workers f (c ∷ cs) p = refl

  claim_work-workers : (f : Bool) (p : Pool C W) → (claim_work pass f p).workers ≡ p.workers
  unfolding claim_work
  claim_work-workers f p = elim (Option-cases (pass.server.ctx_err p.world)) [
    | inr (e, h) ↦ rw (h, claim_work) refl
    | inl h ↦ elim (Option-cases (pass.storage.store_err p.world).0) [
      | inr (e, k) ↦ rw (h, claim_work) (rw k refl)
      | inl k ↦ rw (h, claim_work) (rw k (plan_claimed-workers f _ _))
    ]
  ]

  -- A move of the producer leaves the workers alone, and a stopped one makes none.
  abbrev Keeps : Producer → Pool C W → Option (Pool C W) → Type 0
  Keeps a p none = Unit
  Keeps a p (some q) = (q.workers ≡ p.workers) × (IsStopped a → ⊥)

  produce-Keeps : (a : Producer) (p : Pool C W) → Keeps a p (produce_move pass a p)
  unfolding produce_move
  produce-Keeps (claiming f) p = (claim_work-workers f p, λ h. h)
  produce-Keeps (sending f []) p = (refl, λ h. h)
  produce-Keeps (sending f (b ∷ bs)) p = tt
  produce-Keeps waiting p = tt
  produce-Keeps (stopped e) p = tt

  hear-Keeps : (a : Producer) (p : Pool C W) → Keeps a p (hear_move pass a p)
  unfolding hear_move
  hear-Keeps waiting p = elim (Bool-cases p.metadata_done) [
    | inl h ↦ rw h (refl, λ x. x)
    | inr h ↦ rw h tt
  ]
  hear-Keeps (claiming f) p = tt
  hear-Keeps (sending f bs) p = tt
  hear-Keeps (stopped e) p = tt

  poll-Keeps : (a : Producer) (p : Pool C W) → Keeps a p (poll_move pass a p)
  unfolding poll_move
  poll-Keeps waiting p = (refl, λ h. h)
  poll-Keeps (claiming f) p = tt
  poll-Keeps (sending f bs) p = tt
  poll-Keeps (stopped e) p = tt

  cancel-Keeps : (a : Producer) (p : Pool C W) → Keeps a p (cancel_move pass a p)
  unfolding cancel_move
  cancel-Keeps waiting p = elim (Option-cases (pass.server.ctx_err p.world)) [
    | inl h ↦ rw (h, cancel_move) tt
    | inr (e, h) ↦ rw (h, cancel_move) (refl, λ x. x)
  ]
  cancel-Keeps (claiming f) p = tt
  cancel-Keeps (sending f []) p = tt
  cancel-Keeps (sending f (b ∷ bs)) p = elim (Option-cases (pass.server.ctx_err p.world)) [
    | inl h ↦ rw (h, cancel_move) tt
    | inr (e, h) ↦ rw (h, cancel_move) (refl, λ x. x)
  ]
  cancel-Keeps (stopped e) p = tt

  Keeps-Serves :
      (p : Pool C W) (r : Option (Pool C W))
      → Keeps p.producer p r
      → Serves p
      → Serves (or_stay pass p r)
  Keeps-Serves p none k s = s
  Keeps-Serves p (some q) k (inl h) = inl (subst (λ ws. IsReading (worker_at i ws)) (sym k.0) h)
  Keeps-Serves p (some q) k (inr h) = absurd (k.1 h)

  record_worker-workers :
      (e : Option Error) (p : Pool C W) → (record_worker e p).workers ≡ p.workers
  unfolding record_worker
  record_worker-workers none p = refl
  record_worker-workers (some e) p = refl

  leave-workers :
      (j : ℕ) (e : Option Error) (s : Session C) (p : Pool C W)
      → (leave pass j e s p).workers ≡ set_worker j ended p.workers
  unfolding leave
  leave-workers j e s p = rw (record_worker-workers e p) refl

  abbrev Reads : Pool C W → Type 0
  Reads p = IsReading (worker_at i p.workers)

  opened-Reads :
      (j : ℕ) (r : Result SelectedMailbox × Session C × W) (p : Pool C W)
      → (IsReading (worker_at j p.workers) → ⊥)
      → Reads p
      → Reads (opened pass j r p)
  unfolding opened
  opened-Reads j (ok d, s, w) p n h = set-IsReading i j (receiving s) p.workers tt h
  opened-Reads j (err e, s, w) p n h =
      subst (λ ws. IsReading (worker_at i ws)) (sym (leave-workers j _ s (record p { world = w })))
        (set_other-IsReading i j ended p.workers n h)

  open_with-Reads :
      (e : Option Error) (j : ℕ) (p : Pool C W)
      → (IsReading (worker_at j p.workers) → ⊥)
      → Reads p
      → Reads (open_with pass e j p)
  unfolding open_with
  open_with-Reads none j p n h = opened-Reads j _ p n h
  open_with-Reads (some e) j p n h = set_other-IsReading i j ended p.workers n h

  after_fetch-IsReading :
      (s : Session C) (r : Result Unit) → IsReading (some (after_fetch pass s r))
  unfolding after_fetch
  after_fetch-IsReading s (ok u) = tt
  after_fetch-IsReading s (err e) = tt

  next_attempt-IsReading :
      (b : List SizedUid) (left attempt : ℕ) (s : Session C) (e : Error) (go : Bool)
      → IsReading (some (next_attempt pass b left attempt s e go))
  unfolding next_attempt
  next_attempt-IsReading b zero attempt s e true = tt
  next_attempt-IsReading b (suc left) attempt s e true = tt
  next_attempt-IsReading b zero attempt s e false = tt
  next_attempt-IsReading b (suc left) attempt s e false = tt

  after_attempt-IsReading :
      (b : List SizedUid) (left attempt : ℕ) (r : Round C (Batch × W) Unit)
      → IsReading (some (after_attempt pass b left attempt r).0)
  unfolding after_attempt
  after_attempt-IsReading b left attempt (returns r s x) = after_fetch-IsReading s r
  after_attempt-IsReading b left attempt (retries e s x) =
      next_attempt-IsReading b left attempt s e _

  fetch_attempt-IsReading :
      (b : List SizedUid) (left attempt : ℕ) (s : Session C) (x : Batch × W)
      → IsReading (some (fetch_attempt pass b left attempt s x).0)
  unfolding fetch_attempt
  fetch_attempt-IsReading b left attempt s x = after_attempt-IsReading b left attempt _

  fetch_move-Reads :
      (j : ℕ) (s : Session C) (b : List SizedUid) (left attempt : ℕ) (p : Pool C W)
      → Reads p
      → Reads (fetch_move pass j s b left attempt p)
  unfolding fetch_move
  fetch_move-Reads j s b left attempt p h =
      set-IsReading i j _ p.workers (fetch_attempt-IsReading b left attempt s (p.batch, p.world)) h

  fetch_move-producer :
      (j : ℕ) (s : Session C) (b : List SizedUid) (left attempt : ℕ) (p : Pool C W)
      → (fetch_move pass j s b left attempt p).producer ≡ p.producer
  unfolding fetch_move
  fetch_move-producer j s b left attempt p = refl

  receive-Serves :
      (a : Producer) (taken : List SizedUid → Pool C W) (closed p : Pool C W)
      → ((b : List SizedUid) → Reads p → Reads (taken b))
      → closed.producer ≡ p.producer
      → p.producer ≡ a
      → Serves p
      → Serves (or_stay pass p (receive pass a taken closed p))
  unfolding receive
  receive-Serves (sending f []) taken closed p t c e s = s
  receive-Serves (claiming f) taken closed p t c e s = s
  receive-Serves waiting taken closed p t c e s = s
  receive-Serves (stopped x) taken closed p t c e s = inr (subst IsStopped (sym e ∙ sym c) tt)
  receive-Serves (sending f (b ∷ bs)) taken closed p t c e (inl h) = inl (t b h)
  receive-Serves (sending f (b ∷ bs)) taken closed p t c e (inr h) = absurd (subst IsStopped e h)

  work-Serves :
      (j : ℕ) (w : Option (Worker C)) (p : Pool C W)
      → worker_at j p.workers ≡ w
      → Serves p
      → Serves (or_stay pass p (work_move pass j w p))
  unfolding work_move open_mailbox
  work-Serves j none p e s = s
  work-Serves j (some ended) p e s = s
  work-Serves j (some opening) p e (inl h) =
      inl (open_with-Reads pass.credentials j p (λ r. subst IsReading e r) h)
  work-Serves j (some opening) p e (inr h) =
      inr (subst IsStopped (sym (open_with-producer pass pass.credentials j p)) h)
  work-Serves j (some (fetching x b left attempt)) p e (inl h) =
      inl (fetch_move-Reads j x b left attempt p h)
  work-Serves j (some (fetching x b left attempt)) p e (inr h) =
      inr (subst IsStopped (sym (fetch_move-producer j x b left attempt p)) h)
  work-Serves j (some (receiving x)) p e s =
      receive-Serves p.producer _ _ p (λ b. set-IsReading i j (fetching x b _ _) p.workers tt)
        (leave-producer pass j none x p) refl s
  work-Serves j (some (draining x d)) p e s =
      receive-Serves p.producer _ _ p (λ b h. h) (leave-producer pass j (some d) x p) refl s

  move-Serves : (m : Move W) (p : Pool C W) → Serves p → Serves (or_stay pass p (move pass m p))
  unfolding move
  move-Serves produce p s = Keeps-Serves p _ (produce-Keeps p.producer p) s
  move-Serves hear p s = Keeps-Serves p _ (hear-Keeps p.producer p) s
  move-Serves poll p s = Keeps-Serves p _ (poll-Keeps p.producer p) s
  move-Serves cancel p s = Keeps-Serves p _ (cancel-Keeps p.producer p) s
  move-Serves metadata_ends p s = s
  move-Serves (elsewhere db w) p s = s
  move-Serves (work j) p s = work-Serves j (worker_at j p.workers) p refl s

  run-Serves : (ms : List (Move W)) (p : Pool C W) → Serves p → Serves (run pass ms p)
  unfolding run
  run-Serves [] p s = s
  run-Serves (m ∷ ms) p s = run-Serves ms (or_stay pass p (move pass m p)) (move-Serves m p s)

  offering_runs : (a : Producer) → IsOffering a → IsStopped a → ⊥
  offering_runs (stopped e) o s = o
  offering_runs (claiming f) o s = s
  offering_runs waiting o s = s
  offering_runs (sending f bs) o s = s

  -- One worker that has opened the mailbox is enough: under every later schedule, cancellations
  -- included, once the metadata pass is over either a goroutine of the body pass can run on or every
  -- goroutine has returned.
  pub reader_suffices :
      (ms : List (Move W)) (p : Pool C W)
      → IsReading (worker_at i p.workers)
      → (run pass ms p).metadata_done ≡ true
      → CanGoOn pass (run pass ms p)
        ⊎ (IsStopped (run pass ms p).producer × All IsEnded (run pass ms p).workers)
  reader_suffices ms p r d = elim (never_waits pass (run pass ms p) d) [
    | inl h ↦ inl h
    | inr (inl h) ↦ inr h
    | inr (inr h) ↦ elim (run-Serves ms p (inl r)) [
      | inl still ↦ absurd (reading_lives i (run pass ms p).workers h.1 still)
      | inr over ↦ absurd (offering_runs (run pass ms p).producer h.0 over)
    ]
  ]
