-- ===== src/Syncer/Bodies/Tests.antt =====
-- Runs of a batch against small servers, and instances of the theorems about it.
use imapped.Base.{
  ℕ, zero, suc, ◌==◌, if◌then◌else◌, ◌≡◌, refl, true, false, none, some, List, [], ◌∷◌, map, arith,
}
use imapped.Base.Int64
use imapped.Base.Text
use imapped.Base.Text.{codes}
use imapped.Store.Bodies.{
  attach_body, message_id_for_mailbox_message, mark_body_failed, mark_body_too_large,
}
use imapped.Store.Tables.{BodyState, pending, fetching, stored, skipped_too_large, Message, Entry}
use imapped.Upstream.Errors.{
  Error, leaf, wrap, classified, retryable, no_code, deadline_exceeded, Result, ok, has_cause,
  classify, as_upstream, severity_of, error_text,
}
use imapped.Upstream.Session.{Server, Session, do_command, ensure_connected, recoverable}
use imapped.Upstream.Bodies.{
  FetchItem, item_uid, item_size, item_body, Line, fetch_bodies, too_large,
}
use imapped.Syncer.NumSets.{range_lists}
use imapped.Syncer.Planner.{SizedUid}
use imapped.Syncer.Planner.Ranges.{uid_set}
use imapped.Syncer.Claims.{PendingBody, find, delete, same_key, take_claim}
use imapped.Syncer.Bodies.{Storage, Batch, handle_body, fetch_batch, fetch_batch_session}
use imapped.Syncer.Bodies.Frames.{Unnamed, rows_of, fetch_batch-rows}
use imapped.Syncer.Bodies.Retries.{Vacant, retry-quiet}

abbrev message : ℕ → Message
message id = record {
  id = id;
  account_id = 1;
  sha256 = id ∷ [];
  size = 0;
  message_id_hdr = none;
  in_reply_to = none;
  refs = [];
  subject = none;
  addrs = [];
  internal_date = none;
  sent_date = none;
  blob_key = none;
}

abbrev entry : ℕ → Entry
entry id = record {
  id = id;
  mailbox_id = 7;
  message_id = id;
  local_uid = id;
  upstream_uid = some id;
  upstream_modseq = none;
  flags = [];
  body_state = fetching;
  body_attempts = 0;
  body_error = none;
  claimed_at = some 5;
  expunged_at = none;
}

abbrev claim : ℕ → PendingBody
claim id = record {
  mailbox_message_id = id;
  message_id = id;
  upstream_uid = id;
  size = 3;
  attempts = 0;
}

abbrev ids : List ℕ
ids = 1 ∷ 2 ∷ 3 ∷ []

abbrev batch : List SizedUid
batch = map (λ u. record { uid = u; size = 3 }) ids

abbrev start : Batch
start = record {
  db = record {
    messages = map message ids;
    entries = map entry (1 ∷ 2 ∷ 3 ∷ 4 ∷ []);
    mailboxes = [];
    next_message = 5;
    next_entry = 5;
    next_mailbox = 9;
  };
  claims = map (λ u. (record { mailbox_id = 7; uid = u }, claim u)) ids;
  fetched = 0;
  bytes = 0;
}

-- The digest is the content.
abbrev memory : Storage ℕ
memory = record {
  store_err = λ w. (none, w);
  put = λ raw w. (ok (record { sha256 = raw; size = 3; key = codes "rfc822/" }), w);
  ingest = λ id raw messages w. (none, messages, w);
}

abbrev answer : ℕ → ℕ → List FetchItem
answer uid size =
    item_uid uid
    ∷ item_size size
    ∷ item_body (some (record { size = size; content = ok (uid ∷ uid ∷ []) }))
    ∷ []

abbrev broken : Error
broken = leaf deadline_exceeded []

-- The connection breaks behind the first message, the first time only.
abbrev flaky : Line range_lists.Set ℕ
flaky = record {
  usable = λ w. true;
  ctx_err = λ w. none;
  describe_deadline = λ w. [];
  fetch =
      λ uids w. elim w [ zero ↦ (answer 1 3 ∷ [], 1) | suc n ↦ (map (λ u. answer u 3) ids, suc n) ];
  close = λ w. if w == 1 then (some broken, 2) else (none, w);
}

abbrev dialer : Server Unit ℕ
dialer = record {
  ctx_err = λ w. none;
  pause = λ n w. (true, w);
  connect = λ w. (ok tt, w);
  select = λ c name read_only w. (
    ok (record {
      name = name;
      num_messages = 4;
      uid_validity = 1;
      uid_next = 5;
      highest_mod_seq = 1;
      read_only = read_only;
    }),
    w,
  );
  close = λ c w. w;
  poisoned = λ c w. false;
}

abbrev fresh : Session Unit
fresh = record { client = none; selected = codes "INBOX"; read_only = true }

abbrev states : Batch → List BodyState
states s = map (λ e. e.body_state) s.db.entries

abbrev ends : Result Unit × Session Unit × (Batch × ℕ) → Result Unit × List BodyState × ℕ
ends r = (r.0, states r.2.0, r.2.0.fetched)

-- The retry ends with no error and downloads nothing: two messages wait for another pass.
retry_without_claims :
    ends
      (fetch_batch_session dialer memory range_lists (λ c. flaky) 3 100 5 7 batch fresh (start, 0))
    ≡ (ok tt, stored ∷ pending ∷ pending ∷ fetching ∷ [], 1)
unfolding fetch_batch_session fetch_batch do_command ensure_connected recoverable fetch_bodies
    Int64.lt handle_body take_claim find same_key attach_body Text.same
    message_id_for_mailbox_message delete has_cause classify as_upstream severity_of
    mark_body_failed error_text Int64.add
retry_without_claims = refl

-- The second message is too large; the third one, which is not, is given up with it.
abbrev oversized : Line range_lists.Set ℕ
oversized = record flaky {
  fetch = λ uids w. (answer 1 3 ∷ answer 2 101 ∷ answer 3 3 ∷ [], w);
  close = λ w. (none, w);
}

gives_up_the_rest :
    states (fetch_batch memory range_lists oversized 100 5 7 batch start 0).1
    ≡ stored ∷ skipped_too_large ∷ skipped_too_large ∷ fetching ∷ []
unfolding fetch_batch fetch_bodies Int64.lt handle_body take_claim find same_key attach_body
    Text.same message_id_for_mailbox_message delete has_cause too_large mark_body_too_large
gives_up_the_rest = refl

-- The server has nothing for the third message: its claim and its row stay as they were.
abbrev vanished : Line range_lists.Set ℕ
vanished = record oversized { fetch = λ uids w. (answer 1 3 ∷ answer 2 3 ∷ [], w) }

keeps_fetching :
    states (fetch_batch memory range_lists vanished 100 5 7 batch start 0).1
    ≡ stored ∷ stored ∷ fetching ∷ fetching ∷ []
unfolding fetch_batch fetch_bodies Int64.lt handle_body take_claim find same_key attach_body
    Text.same message_id_for_mailbox_message delete
keeps_fetching = refl

others : Unnamed 4 start.claims
unfolding find same_key
others k c h = ground (arith, h)

fetch_batch-rows_example :
    rows_of 4 (fetch_batch memory range_lists flaky 100 5 7 batch start 0).1.db ≡ rows_of 4 start.db
fetch_batch-rows_example = fetch_batch-rows memory range_lists flaky 100 5 7 batch start 0 4 others

abbrev after_failure : Batch
after_failure = (fetch_batch memory range_lists flaky 100 5 7 batch start 0).1

abbrev failure : Error
failure = wrap (codes "fetching bodies: ") (classified retryable no_code broken) []

fails :
    (fetch_bodies 100 (handle_body memory 5 7) flaky (uid_set range_lists batch) start 0).0
    ≡ some failure
unfolding fetch_bodies Int64.lt handle_body take_claim find same_key attach_body Text.same
    message_id_for_mailbox_message delete classify as_upstream
fails = refl

no_zero : Vacant 7 after_failure.claims 0
unfolding fetch_batch fetch_bodies Int64.lt handle_body take_claim find same_key attach_body
    Text.same message_id_for_mailbox_message delete has_cause mark_body_failed error_text classify
    as_upstream
no_zero = refl

retry-quiet_example :
    (fetch_batch memory range_lists flaky 100 5 7 batch after_failure 2).1 ≡ after_failure
unfolding has_cause
retry-quiet_example =
    retry-quiet memory range_lists flaky 100 5 7 batch start after_failure 0 2 failure fails refl
      (refl, (refl, (refl, tt)))
      ((refl, (tt, (tt, tt))), ((refl, (tt, (tt, tt))), ((refl, (tt, (tt, tt))), tt))) no_zero
