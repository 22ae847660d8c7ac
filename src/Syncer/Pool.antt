-- ===== src/Syncer/Pool.antt =====
-- internal/syncer/mailbox.go: bodyPass, the producer that claims and plans work and the workers that
-- fetch it. Each goroutine is a state, and a move is what one of them does between two points where
-- it may wait; a schedule is a list of moves. An attempt at a batch is one move, with the wait behind
-- it, so that what a failed attempt has released can be claimed again before the next attempt. The
-- claims that an attempt takes are all that two attempts could contend for, and each is taken once.
pub mod Handover
pub mod Progress
pub mod Readers
pub mod Attempts
pub mod Tests
use imapped.Base.{
  ℕ, zero, suc, ◌+◌, ◌-◌, ◌*◌, ◌%◌, ◌^◌, Bool, true, false, Option, none, some, List, [], ◌∷◌, ◌++◌,
  map, length, ltb, ◌==◌, if◌then◌else◌, select,
}
use imapped.Base.Int64
use imapped.Base.Text
use imapped.Base.Text.{Text, codes}
use imapped.Store.Sql.{head_of}
use imapped.Store.Tables.{Database, Entry, Mailbox}
use imapped.Store.Bodies.{uid_of, claim_pending_bodies}
use imapped.Upstream.Errors.{Error, wrap, is_too_many_connections, Result, ok, err}
use imapped.Upstream.Session.{
  Server, Session, SelectedMailbox, select_mailbox, close_session, Round, returns, retries, round,
  failed_after,
}
use imapped.Upstream.Bodies.{Line}
use imapped.Syncer.NumSets.{NumSets}
use imapped.Syncer.Planner.{SizedUid, BatchBudget, plan_batches}
use imapped.Syncer.Claims.{PendingBody, remember}
use imapped.Syncer.Bodies.{Storage, Batch, carry, fetch_command}

-- What the pass reads of the configuration, which Validate has checked to be positive.
pub record Limits : Type 0 where
  pub connections_per_account : ℕ
  pub body_batch_max_msgs : ℕ
  pub body_max_attempts : ℕ
  pub retry_max_attempts : ℕ
  pub max_message_size : ℕ
  pub budget : BatchBudget

-- The outside of the claiming statement: its clock, the rows that other transactions hold, and the
-- order in which the rows come back.
pub record Claiming (W : Type 0) : Type 0 where
  pub now : W → ℕ
  pub locked : W → ℕ → Bool
  pub returning : W → List Entry → List Entry

-- The producer at the top of its loop and in its two selects; the flag is metadataFinished.
pub data Producer : Type 0 where
  claiming : Bool → Producer
  waiting : Producer
  sending : Bool → List (List SizedUid) → Producer
  stopped : Option Error → Producer

-- A worker before it has opened the mailbox, in its two loops, and after its return. At a batch it
-- has a number of attempts left behind this one, which has a number too.
pub data Worker (C : Type 0) : Type 0 where
  opening : Worker C
  receiving : Session C → Worker C
  fetching : Session C → List SizedUid → ℕ → ℕ → Worker C
  draining : Session C → Error → Worker C
  ended : Worker C

-- `failures` and `workers_run` are what recordWorker keeps; `group_error` is the first error that a
-- goroutine of the group returned.
pub record Pool (C W : Type 0) : Type 0 where
  pub producer : Producer
  pub workers : List (Worker C)
  pub batch : Batch
  pub world : W
  pub metadata_done : Bool
  pub failures : List Error
  pub workers_run : ℕ
  pub group_error : Option Error

unfoldable pub count_workers : Limits → ℕ
count_workers limits =
    if ltb (limits.connections_per_account - 1) 1 then 1 else limits.connections_per_account - 1

-- imap.UID(c.UpstreamUID)
unfoldable pub uid_of_claim : PendingBody → ℕ
uid_of_claim c = c.upstream_uid % 2 ^ 32

-- A row that the claim returns; every entry's message is there.
unfoldable pub pending_body : Database → Entry → PendingBody
pending_body db e = record {
  mailbox_message_id = e.id;
  message_id = e.message_id;
  upstream_uid = uid_of e.upstream_uid;
  size = elim (head_of (select (λ m. m.id == e.message_id) db.messages)) [
    | none ↦ 0
    | some m ↦ m.size
  ];
  attempts = e.body_attempts;
}

unfoldable pub sized : PendingBody → SizedUid
unfolding uid_of_claim
sized c = record { uid = uid_of_claim c; size = c.size }

abbrev pub first_error : Option Error → Error → Error
first_error none e = e
first_error (some d) e = d

unfoldable pub record_worker : {C W : Type 0} → Option Error → Pool C W → Pool C W
record_worker none p = record p { workers_run = suc p.workers_run }
record_worker (some e) p = record p {
  workers_run = suc p.workers_run;
  failures = p.failures ++ e ∷ [];
}

abbrev pub worker_at : {C : Type 0} → ℕ → List (Worker C) → Option (Worker C)
worker_at i [] = none
worker_at zero (w ∷ ws) = some w
worker_at (suc i) (w ∷ ws) = worker_at i ws

abbrev pub set_worker : {C : Type 0} → ℕ → Worker C → List (Worker C) → List (Worker C)
set_worker i v [] = []
set_worker zero v (w ∷ ws) = v ∷ ws
set_worker (suc i) v (w ∷ ws) = w ∷ set_worker i v ws

-- What may happen next. `elsewhere` is whatever the metadata pass and others do to the tables and
-- the outside; `hear`, `poll` and `cancel` are the cases of the producer's selects beside a send.
pub data Move (W : Type 0) : Type 0 where
  produce hear poll cancel metadata_ends : Move W
  work : ℕ → Move W
  elsewhere : Database → W → Move W

abbrev pub new_session : {C : Type 0} → Session C
new_session = record { client = none; selected = []; read_only = false }

-- What one body pass works with; `credentials` is the error of looking them up.
pub record BodyPass (C W : Type 0) : Type 1 where
  pub limits : Limits
  pub mailbox : Mailbox
  pub server : Server C W
  pub storage : Storage W
  pub claims : Claiming W
  pub credentials : Option Error
  pub sets : NumSets
  pub lines : C → Line sets.Set W

module _ {C W : Type 0} (pass : BodyPass C W) where
  open pass use {limits, mailbox, server, storage, claims, credentials, sets, lines}

  abbrev stop : Option Error → Pool C W → Pool C W
  stop none p = record p { producer = stopped none }
  stop (some e) p = record p {
    producer = stopped (some e);
    group_error = some (first_error p.group_error e);
  }

  -- What was claimed is remembered and planned; nothing claimed ends the last sweep.
  unfoldable pub plan_claimed : Bool → List PendingBody → Pool C W → Pool C W
  unfolding sized uid_of_claim
  plan_claimed finished [] p = record p { producer = if finished then stopped none else waiting }
  plan_claimed finished (c ∷ cs) p = record p {
    producer = sending finished (plan_batches (map sized (c ∷ cs)) limits.budget);
    batch = record p.batch {
      claims = remember mailbox.id (map (λ d. (uid_of_claim d, d)) (c ∷ cs)) p.batch.claims;
    };
  }

  unfoldable pub claim_limit : ℕ
  unfolding count_workers
  claim_limit = limits.body_batch_max_msgs * count_workers limits * 2

  -- The rows that the statement claims now, and the tables behind it.
  unfoldable pub claim_now : Database → W → List Entry × Database
  unfolding claim_limit
  claim_now db w =
      claim_pending_bodies (claims.returning w) (claims.locked w) mailbox.id claim_limit
        limits.body_max_attempts (claims.now w) db

  unfoldable pub claim_work : Bool → Pool C W → Pool C W
  unfolding plan_claimed claim_now pending_body
  claim_work finished p = elim (server.ctx_err p.world) [
    | some e ↦ stop (some e) p
    | none ↦
        let r = storage.store_err p.world in
        elim r.0 [
          | some e ↦ stop (some e) (record p { world = r.1 })
          | none ↦
              let claimed = claim_now p.batch.db r.1 in
              plan_claimed finished (map (pending_body p.batch.db) claimed.0)
                (record p { batch = record p.batch { db = claimed.1 }; world = r.1 })
        ]
  ]

  -- The producer runs on where it does not wait.
  unfoldable pub produce_move : Producer → Pool C W → Option (Pool C W)
  unfolding claim_work
  produce_move (claiming finished) p = some (claim_work finished p)
  produce_move (sending finished []) p = some (record p { producer = claiming finished })
  produce_move (sending finished (b ∷ bs)) p = none
  produce_move waiting p = none
  produce_move (stopped e) p = none

  unfoldable pub hear_move : Producer → Pool C W → Option (Pool C W)
  hear_move waiting p =
      if p.metadata_done then some (record p { producer = claiming true }) else none
  hear_move (claiming finished) p = none
  hear_move (sending finished bs) p = none
  hear_move (stopped e) p = none

  unfoldable pub poll_move : Producer → Pool C W → Option (Pool C W)
  poll_move waiting p = some (record p { producer = claiming false })
  poll_move (claiming finished) p = none
  poll_move (sending finished bs) p = none
  poll_move (stopped e) p = none

  unfoldable pub cancel_move : Producer → Pool C W → Option (Pool C W)
  cancel_move waiting p = elim (server.ctx_err p.world) [
    | none ↦ none
    | some e ↦ some (stop (some e) p)
  ]
  cancel_move (sending finished []) p = none
  cancel_move (sending finished (b ∷ bs)) p = elim (server.ctx_err p.world) [
    | none ↦ none
    | some e ↦ some (stop (some e) p)
  ]
  cancel_move (claiming finished) p = none
  cancel_move (stopped e) p = none

  -- A worker ends: the deferred Close stands behind recordWorker.
  unfoldable pub leave : ℕ → Option Error → Session C → Pool C W → Pool C W
  unfolding record_worker
  leave i e session p =
      let q = record_worker e p in
      record q {
        workers = set_worker i ended q.workers;
        world = (close_session server session q.world).1;
      }

  -- Where the server refuses the connection, the worker counts as one that did not fail.
  unfoldable pub opened : ℕ → Result SelectedMailbox × Session C × W → Pool C W → Pool C W
  unfolding leave
  opened i (ok selected, s, w) p = record p {
    workers = set_worker i (receiving s) p.workers;
    world = w;
  }
  opened i (err e, s, w) p =
      leave i (if is_too_many_connections e then none else some e) s (record p { world = w })

  unfoldable pub open_with : Option Error → ℕ → Pool C W → Pool C W
  unfolding opened
  open_with none i p =
      opened i
        (select_mailbox server limits.retry_max_attempts mailbox.name true new_session p.world) p
  open_with (some e) i p = record p {
    workers = set_worker i ended p.workers;
    group_error = some (first_error p.group_error e);
  }

  unfoldable pub open_mailbox : ℕ → Pool C W → Pool C W
  unfolding open_with
  open_mailbox i p = open_with credentials i p

  -- How often Session.Do may attempt a batch.
  unfoldable pub attempts : ℕ
  attempts = if Int64.lt limits.retry_max_attempts 1 then 1 else limits.retry_max_attempts

  -- After a failure the worker only drains the channel.
  unfoldable pub after_fetch : Session C → Result Unit → Worker C
  after_fetch s (ok u) = receiving s
  after_fetch s (err e) = draining s e

  -- The command of Session.Do at a batch.
  unfoldable pub fetch_once : List SizedUid → C → Batch × W → Result Unit × (Batch × W)
  unfolding fetch_command
  fetch_once b =
      fetch_command server storage sets lines limits.max_message_size limits.body_max_attempts
        mailbox.id b

  -- Behind the wait: another attempt, if the context has not ended and one is left.
  unfoldable pub next_attempt : List SizedUid → ℕ → ℕ → Session C → Error → Bool → Worker C
  unfolding attempts
  next_attempt b (suc left) attempt s e true = fetching s b left (attempt + 1)
  next_attempt b zero attempt s e true =
      draining s (failed_after (carry server) (fetch_once b) (codes "fetch bodies") attempts e)
  next_attempt b left attempt s e false =
      draining s (failed_after (carry server) (fetch_once b) (codes "fetch bodies") attempts e)

  unfoldable pub after_attempt :
      List SizedUid → ℕ → ℕ → Round C (Batch × W) Unit → Worker C × (Batch × W)
  unfolding after_fetch next_attempt
  after_attempt b left attempt (returns r s x) = (after_fetch s r, x)
  after_attempt b left attempt (retries e s x) =
      let paused = Server.pause (carry server) attempt x in
      (next_attempt b left attempt s e paused.0, paused.1)

  -- An attempt at a batch, as Session.Do makes it, and the wait behind one that failed.
  unfoldable pub fetch_attempt :
      List SizedUid → ℕ → ℕ → Session C → Batch × W → Worker C × (Batch × W)
  unfolding after_attempt
  fetch_attempt b left attempt s x =
      after_attempt b left attempt (round (carry server) (fetch_once b) s x)

  unfoldable pub fetch_move : ℕ → Session C → List SizedUid → ℕ → ℕ → Pool C W → Pool C W
  unfolding fetch_attempt
  fetch_move i session b left attempt p =
      let r = fetch_attempt b left attempt session (p.batch, p.world) in
      record p { workers = set_worker i r.0 p.workers; batch = r.1.0; world = r.1.1 }

  -- A receive: it takes the batch that the producer offers, sees the closed channel, or waits.
  unfoldable pub receive :
      Producer → (List SizedUid → Pool C W) → Pool C W → Pool C W → Option (Pool C W)
  receive (sending finished (b ∷ bs)) taken closed p =
      some (record (taken b) { producer = sending finished bs })
  receive (stopped e) taken closed p = some closed
  receive (sending finished []) taken closed p = none
  receive (claiming finished) taken closed p = none
  receive waiting taken closed p = none

  unfoldable pub work_move : ℕ → Option (Worker C) → Pool C W → Option (Pool C W)
  unfolding open_mailbox leave fetch_move receive
  work_move i none p = none
  work_move i (some opening) p = some (open_mailbox i p)
  work_move i (some (receiving s)) p =
      receive p.producer
        (λ b. record p { workers = set_worker i (fetching s b (attempts - 1) 1) p.workers })
        (leave i none s p) p
  work_move i (some (fetching s b left attempt)) p = some (fetch_move i s b left attempt p)
  work_move i (some (draining s e)) p = receive p.producer (λ b. p) (leave i (some e) s p) p
  work_move i (some ended) p = none

  unfoldable pub move : Move W → Pool C W → Option (Pool C W)
  unfolding produce_move hear_move poll_move cancel_move work_move
  move produce p = produce_move p.producer p
  move hear p = hear_move p.producer p
  move poll p = poll_move p.producer p
  move cancel p = cancel_move p.producer p
  move metadata_ends p = some (record p { metadata_done = true })
  move (work i) p = work_move i (worker_at i p.workers) p
  move (elsewhere db w) p = some (record p { batch = record p.batch { db = db }; world = w })

  -- A move that has to wait leaves the pass as it is.
  abbrev pub or_stay : Pool C W → Option (Pool C W) → Pool C W
  or_stay p none = p
  or_stay p (some q) = q

  -- The pass after a schedule.
  unfoldable pub run : List (Move W) → Pool C W → Pool C W
  unfolding move
  run [] p = p
  run (m ∷ ms) p = run ms (or_stay p (move m p))

  abbrev pub idle : ℕ → List (Worker C)
  idle zero = []
  idle (suc n) = opening ∷ idle n

  unfoldable pub start : Batch → W → Pool C W
  unfolding count_workers
  start b w = record {
    producer = claiming false;
    workers = idle (count_workers limits);
    batch = record b { fetched = 0; bytes = 0 };
    world = w;
    metadata_done = false;
    failures = [];
    workers_run = 0;
    group_error = none;
  }

  -- The result, once every goroutine has returned.
  unfoldable pub verdict : Pool C W → Option Error
  verdict p = elim p.group_error [
    | some e ↦ some e
    | none ↦ elim p.failures [
      | [] ↦ none
      | e ∷ es ↦
          if length (e ∷ es) == p.workers_run
          then some (
              wrap
                (codes "every body-fetch worker failed ("
                  ++ (Text.decimal (length (e ∷ es))
                      ++ (codes " of " ++ (Text.decimal p.workers_run ++ codes "): "))))
                e [])
          else none
    ]
  ]
