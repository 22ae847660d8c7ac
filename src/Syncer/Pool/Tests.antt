-- ===== src/Syncer/Pool/Tests.antt =====
-- Body passes of one worker against small servers, and instances of the theorems about them.
use imapped.Base.{ℕ, ◌≡◌, refl, true, false, none, some, List, [], ◌∷◌, ◌⊎◌, map, All}
use imapped.Base.Int64
use imapped.Base.Text
use imapped.Base.Text.{codes}
use imapped.Store.Bodies.{attach_body, message_id_for_mailbox_message, claim_pending_bodies}
use imapped.Store.Tables.{BodyState, pending, fetching, stored, Message, Entry, Mailbox}
use imapped.Upstream.Errors.{
  Error, leaf, plain, ok, err, has_cause, classify, as_upstream, severity_of, error_text,
  is_too_many_connections,
}
use imapped.Upstream.Session.{
  Server, do_command, ensure_connected, recoverable, select_mailbox, close_session,
}
use imapped.Upstream.Bodies.{FetchItem, item_uid, item_size, item_body, Line, fetch_bodies}
use imapped.Syncer.NumSets.{range_lists}
use imapped.Store.Sql.{order_by}
use imapped.Syncer.Planner.{
  plan_batches, flush, plan_loop, plan_step, is_solo, add_message, make_room, is_over, at_least_one,
}
use imapped.Syncer.Claims.{find, delete, same_key, take_claim, remember, assign}
use imapped.Syncer.Bodies.{Storage, Batch, handle_body, fetch_batch, fetch_command, carry}
use imapped.Syncer.Pool.{
  fetch_once, BodyPass, Pool, ended, stopped, Move, produce, hear, metadata_ends, work, worker_at,
  run, start, verdict, pending_body,
}
use imapped.Syncer.Pool.Progress.{IsEnded, IsStopped, IsOffering, CanGoOn, stranded}
use imapped.Syncer.Pool.Readers.{IsReading, reader_suffices}

abbrev message : ℕ → Message
message id = record {
  id = id;
  account_id = 1;
  sha256 = id ∷ [];
  size = 3;
  message_id_hdr = none;
  in_reply_to = none;
  refs = [];
  subject = none;
  addrs = [];
  internal_date = none;
  sent_date = none;
  blob_key = none;
}

abbrev entry : ℕ → Entry
entry id = record {
  id = id;
  mailbox_id = 7;
  message_id = id;
  local_uid = id;
  upstream_uid = some id;
  upstream_modseq = none;
  flags = [];
  body_state = pending;
  body_attempts = 0;
  body_error = none;
  claimed_at = none;
  expunged_at = none;
}

abbrev pub inbox : Mailbox
inbox = record {
  id = 7;
  account_id = 1;
  name = codes "INBOX";
  canonical_name = codes "inbox";
  delimiter = none;
  attributes = [];
  special_use = none;
  uid_validity = some 1;
  uid_next = none;
  highest_mod_seq = none;
  metadata_synced_through_uid = 0;
  last_full_scan_at = none;
  resync_required = false;
  sync_generation = 0;
  local_uid_next = 3;
  exists_count = 2;
  unseen_count = 0;
}

abbrev pub before : Batch
before = record {
  db = record {
    messages = map message (1 ∷ 2 ∷ []);
    entries = map entry (1 ∷ 2 ∷ []);
    mailboxes = inbox ∷ [];
    next_message = 3;
    next_entry = 3;
    next_mailbox = 9;
  };
  claims = [];
  fetched = 0;
  bytes = 0;
}

abbrev pub memory : Storage ℕ
memory = record {
  store_err = λ w. (none, w);
  put = λ raw w. (ok (record { sha256 = raw; size = 3; key = codes "rfc822/" }), w);
  ingest = λ id raw messages w. (none, messages, w);
}

abbrev answer : ℕ → List FetchItem
answer uid =
    item_uid uid
    ∷ item_size 3
    ∷ item_body (some (record { size = 3; content = ok (uid ∷ uid ∷ []) }))
    ∷ []

abbrev pub line : Line range_lists.Set ℕ
line = record {
  usable = λ w. true;
  ctx_err = λ w. none;
  describe_deadline = λ w. [];
  fetch = λ uids w. (map answer (1 ∷ 2 ∷ []), w);
  close = λ w. (none, w);
}

abbrev pub dialer : Server Unit ℕ
dialer = record {
  ctx_err = λ w. none;
  pause = λ n w. (true, w);
  connect = λ w. (ok tt, w);
  select = λ c name read_only w. (
    ok (record {
      name = name;
      num_messages = 2;
      uid_validity = 1;
      uid_next = 3;
      highest_mod_seq = 1;
      read_only = read_only;
    }),
    w,
  );
  close = λ c w. w;
  poisoned = λ c w. false;
}

abbrev full : Error
full = leaf plain (codes "too many connections")

abbrev refusing : Server Unit ℕ
refusing = record dialer { connect = λ w. (err full, w) }

abbrev pub pass_with : Server Unit ℕ → BodyPass Unit ℕ
pass_with server = record {
  limits = record {
    connections_per_account = 2;
    body_batch_max_msgs = 10;
    body_max_attempts = 3;
    retry_max_attempts = 1;
    max_message_size = 100;
    budget = record { max_bytes = 1000; max_messages = 10; solo_above = 0 };
  };
  mailbox = inbox;
  server = server;
  storage = memory;
  claims = record { now = λ w. 9; locked = λ w id. false; returning = λ w rows. rows };
  credentials = none;
  sets = range_lists;
  lines = λ c. line;
}

abbrev states : Pool Unit ℕ → List BodyState
states p = map (λ e. e.body_state) p.batch.db.entries

abbrev to_the_end : List (Move ℕ)
to_the_end =
    work 0
    ∷ produce
    ∷ work 0
    ∷ work 0
    ∷ produce
    ∷ produce
    ∷ metadata_ends
    ∷ hear
    ∷ produce
    ∷ work 0
    ∷ []

abbrev last : Pool Unit ℕ
last = run (pass_with dialer) to_the_end (start (pass_with dialer) before 0)

downloads_both :
    (states last ≡ stored ∷ stored ∷ [])
    × (last.producer ≡ stopped none)
    × (last.workers ≡ ended ∷ [])
    × (verdict (pass_with dialer) last ≡ none)
unfolding run start claim_pending_bodies pending_body plan_batches remember select_mailbox
    do_command ensure_connected recoverable Int64.lt Int64.add fetch_command carry fetch_once
    fetch_batch fetch_bodies handle_body take_claim find same_key attach_body Text.same
    message_id_for_mailbox_message delete has_cause classify as_upstream severity_of close_session
    verdict order_by flush plan_loop plan_step is_solo add_message make_room is_over at_least_one
    assign
downloads_both = (refl, refl, refl, refl)

-- The only worker is refused: both messages are claimed, and nobody will take them.
abbrev refused : Pool Unit ℕ
refused = run (pass_with refusing) (work 0 ∷ produce ∷ []) (start (pass_with refusing) before 0)

nobody_reads :
    (states refused ≡ fetching ∷ fetching ∷ [])
    × IsOffering refused.producer
    × All IsEnded refused.workers
unfolding run start claim_pending_bodies pending_body plan_batches remember select_mailbox
    do_command ensure_connected recoverable Int64.lt has_cause classify as_upstream severity_of
    close_session is_too_many_connections error_text Text.contains Text.to_lower Text.decimal
    order_by flush plan_loop plan_step is_solo add_message make_room is_over Int64.add at_least_one
nobody_reads = (refl, tt, (tt, tt))

abbrev first : Pool Unit ℕ
first = start (pass_with dialer) before 0

abbrev more : List (Move ℕ)
more = metadata_ends ∷ produce ∷ hear ∷ work 0 ∷ []

stranded_example :
    ((run (pass_with refusing) more refused).producer ≡ refused.producer)
    × ((run (pass_with refusing) more refused).workers ≡ refused.workers)
stranded_example =
    stranded (pass_with refusing) more refused (tt, (tt, (tt, (tt, tt)))) nobody_reads.1
      nobody_reads.2

abbrev opened_one : Pool Unit ℕ
opened_one = run (pass_with dialer) (work 0 ∷ []) first

opened_reads :
    (IsReading (worker_at 0 opened_one.workers))
    × ((run (pass_with dialer) (metadata_ends ∷ []) opened_one).metadata_done ≡ true)
unfolding run start select_mailbox do_command ensure_connected Int64.lt
opened_reads = (tt, refl)

reader_suffices_example :
    CanGoOn (pass_with dialer) (run (pass_with dialer) (metadata_ends ∷ []) opened_one)
    ⊎ (IsStopped (run (pass_with dialer) (metadata_ends ∷ []) opened_one).producer
        × All IsEnded (run (pass_with dialer) (metadata_ends ∷ []) opened_one).workers)
reader_suffices_example =
    reader_suffices (pass_with dialer) 0 (metadata_ends ∷ []) opened_one opened_reads.0
      opened_reads.1
