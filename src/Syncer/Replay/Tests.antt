-- ===== src/Syncer/Replay/Tests.antt =====
-- Runs of the replay over small queues, and instances of the theorems about them.
use imapped.Base.{
  ℕ, ◌≡◌, refl, true, false, none, some, Option, List, [], ◌∷◌, map, All, ◌==◌, if◌then◌else◌,
}
use imapped.Base.Int64
use imapped.Base.Text
use imapped.Base.Text.{codes}
use imapped.Store.Mutations.{
  count_pending_mutations, claim_due_mutations, mutation_succeeded, mutation_failed, Status,
  pending, in_flight, succeeded, Mutation, Queue, store_flags,
}
use imapped.Upstream.Errors.{
  Error, leaf, classified, plain, network, no_code, fatal_account, ok, err, has_cause, severity_of,
}
use imapped.Upstream.Retry.{backoff}
use imapped.Upstream.Session.{select_mailbox, ensure_connected, recoverable}
use imapped.Store.Sql.{order_by}
use imapped.Syncer.Replay.{
  Upstream, Limits, Replay, Flow, goes_on, returns, replay_batch, replay_mutations,
}
use imapped.Syncer.Replay.Settled.{IsSettled, replay_batch-IsSettled}

abbrev change : ℕ → Mutation
change id = record {
  id = id;
  account_id = 1;
  mailbox_id = 1;
  kind = store_flags;
  payload = id ∷ [];
  idempotency_key = id ∷ [];
  status = pending;
  attempts = 0;
  next_attempt_at = none;
  last_error = none;
  locked_by = none;
  locked_at = none;
  created_at = id;
}

abbrev first : List ℕ → ℕ
first [] = 0
first (n ∷ ns) = n

abbrev queue : Queue
queue = record { rows = change 1 ∷ change 2 ∷ change 3 ∷ []; next_id = 4 }

abbrev refused : Error
refused = classified fatal_account no_code (leaf plain [])

abbrev busy : Error
busy = leaf network []

-- The server fails the flags of UID 2 with the given error.
abbrev failing : Error → Upstream Unit ℕ
failing e = record {
  server = record {
    ctx_err = λ w. none;
    pause = λ n w. (true, w);
    connect = λ w. (ok tt, w);
    select = λ c name read_only w. (
      ok (record {
        name = name;
        num_messages = 4;
        uid_validity = 1;
        uid_next = 5;
        highest_mod_seq = 1;
        read_only = read_only;
      }),
      w,
    );
    close = λ c w. w;
    poisoned = λ c w. false;
  };
  get_account = λ w. (ok (record { upstream_host = codes "host"; active = true }), w);
  credentials = λ a. none;
  send_flags = λ c uid flags w. if uid == 2 then (err e, w) else (ok tt, w);
  unmarshal = λ t. ok (record { upstream_uid = first t; mailbox = codes "A"; flags = [] });
  store_err = λ w. (none, w);
  now = λ w. (100, w);
  rand = λ w. (λ n. 0, w);
  locked = λ w id. false;
  returning = λ ms. ms;
}

abbrev limits : Limits
limits = record { retry_attempts = 1; retry_base_delay = 10; retry_max_delay = 80 }

abbrev start : Replay Unit ℕ
start = record {
  queue = queue;
  link = record {
    session = record { client = none; selected = []; read_only = false };
    selected_mailbox = [];
    world = 0;
  };
  applied = 0;
}

abbrev statuses : Option (Option Error × Replay Unit ℕ) → List Status
statuses none = []
statuses (some r) = map (λ m. m.status) r.1.queue.rows

-- One change that fails for now does not stop the others.
one_waits :
    statuses (replay_mutations (failing busy) limits 3 1 (codes "w") queue 0)
    ≡ succeeded ∷ pending ∷ succeeded ∷ []
unfolding replay_mutations count_pending_mutations claim_due_mutations order_by Text.same
    select_mailbox Int64.lt ensure_connected recoverable has_cause severity_of mutation_succeeded
    mutation_failed backoff Int64.le Int64.add
one_waits = refl

-- An error that is fatal for the account ends the pass, and what it has claimed stays in flight.
rest_stays_in_flight :
    statuses (replay_mutations (failing refused) limits 3 1 (codes "w") queue 0)
    ≡ succeeded ∷ pending ∷ in_flight ∷ []
unfolding replay_mutations count_pending_mutations claim_due_mutations order_by Text.same
    select_mailbox Int64.lt ensure_connected recoverable has_cause severity_of mutation_succeeded
    mutation_failed
rest_stays_in_flight = refl

abbrev left : Flow Unit ℕ → Replay Unit ℕ
left (goes_on t) = t
left (returns e t) = t

abbrev after_batch : Replay Unit ℕ
after_batch = left (replay_batch (failing busy) limits queue.rows start)

goes_through : replay_batch (failing busy) limits queue.rows start ≡ goes_on after_batch
unfolding replay_batch Text.same select_mailbox Int64.lt ensure_connected recoverable has_cause
    severity_of
goes_through = refl

replay_batch-IsSettled_example : All (IsSettled queue.rows) after_batch.queue.rows
replay_batch-IsSettled_example =
    replay_batch-IsSettled (failing busy) limits queue.rows start after_batch goes_through
