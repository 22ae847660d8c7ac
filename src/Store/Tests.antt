-- ===== src/Store/Tests.antt =====
-- Runs of the store's statements on small tables, and instances of the theorems about them.
use imapped.Base.{ℕ, ◌≤◌, ◌≡◌, refl, Bool, false, none, some, [], ◌∷◌, arith, ◌==◌, count, All, inl}
use imapped.Base.Text
use imapped.Base.Text.{Text, codes}
use imapped.Store.Sql
use imapped.Store.Sql.{member}
use imapped.Store.Tables
use imapped.Store.Tables.{BodyState, Message, Entry, Mailbox, Database, fetching}
use imapped.Store.Messages.{MessageMeta, upsert_metadata_batch}
use imapped.Store.Bodies.{claimable_ids, claim_pending_bodies}
use imapped.Store.Bodies.Exclusive.{bodies_claim_exclusive}
use imapped.Store.Mailboxes.{
  count_mailbox_messages, delete_missing_uids, reset_for_uid_validity_change,
}
use imapped.Store.Mailboxes.Reset.{is_shown_row, is_orphan_row, reset_keeps_old_rows}
use imapped.Store.Steps.{apply, apply_all, upserts, fails, resets, deletes, unlists}
use imapped.Store.Steps.Attempts.{HasAttempts, apply-HasAttempts}
use imapped.Store.Steps.Uids.{IsNumbered, next_uid, has_number, shows}
use imapped.Store.Steps.Reuse.{HasIds, IsSpent}
use imapped.Store.Steps.History.{apply_all-never_again}
use imapped.Store.Mutations
use imapped.Store.Mutations.{
  Mutation, MutationType, Queue, Status, store_flags, insert_or_requeue, due_ids, is_due,
  claim_due_mutations, mutation_failed, mutation_succeeded,
}
use imapped.Store.Mutations.Claims.{claim_exclusive, IsUnique, execute, execute-IsUnique, enqueues}

abbrev inbox : Mailbox
inbox = record {
  id = 1;
  account_id = 1;
  name = codes "INBOX";
  canonical_name = codes "inbox";
  delimiter = none;
  attributes = [];
  special_use = none;
  uid_validity = some 7;
  uid_next = none;
  highest_mod_seq = none;
  metadata_synced_through_uid = 0;
  last_full_scan_at = none;
  resync_required = false;
  sync_generation = 0;
  local_uid_next = 1;
  exists_count = 0;
  unseen_count = 0;
}

abbrev empty_store : Database
empty_store = record {
  messages = [];
  entries = [];
  mailboxes = inbox ∷ [];
  next_message = 1;
  next_entry = 1;
  next_mailbox = 9;
}

abbrev meta : ℕ → MessageMeta
meta uid = record {
  account_id = 1;
  mailbox_id = 1;
  upstream_uid = uid;
  upstream_modseq = 0;
  flags = [];
  size = 10;
  message_id = none;
  in_reply_to = none;
  references = [];
  subject = none;
  addrs = [];
  internal_date = none;
  sent_date = none;
}

abbrev entry : ℕ → ℕ → Entry
entry id uid = record {
  id = id;
  mailbox_id = 1;
  message_id = id;
  local_uid = id;
  upstream_uid = some uid;
  upstream_modseq = none;
  flags = [];
  body_state = Tables.pending;
  body_attempts = 0;
  body_error = none;
  claimed_at = none;
  expunged_at = none;
}

abbrev two_messages : Database
two_messages = record empty_store {
  entries = entry 1 40 ∷ entry 2 50 ∷ [];
  mailboxes = record inbox { local_uid_next = 3 } ∷ [];
  next_entry = 3;
  next_mailbox = 9;
}

abbrev no_locks : ℕ → Bool
no_locks i = false

-- The newest message is claimed first.
newest_first : claimable_ids no_locks 1 1 5 two_messages ≡ 2 ∷ []
unfolding claimable_ids Sql.order_by
newest_first = refl

-- The second message of a batch gets the next UID.
batch_uids : next_uid 1 (apply (upserts (meta 40 ∷ meta 50 ∷ [])) empty_store).mailboxes ≡ 3
unfolding apply upsert_metadata_batch next_uid Text.same
batch_uids = refl

bodies_claim_exclusive_example :
    All
      (λ i. member i (claimable_ids no_locks 1 1 5 two_messages) ≡ false)
      (claimable_ids no_locks 1 10 5
        (claim_pending_bodies (λ es. es) no_locks 1 1 5 100 two_messages).1)
bodies_claim_exclusive_example =
    bodies_claim_exclusive (λ es. es) no_locks no_locks 1 1 1 10 5 5 100 two_messages

two_messages-ids : (i : ℕ) → count (λ e. e.id == i) two_messages.entries ≤ 1
two_messages-ids i = ground arith

two_messages-IsNumbered : IsNumbered two_messages
unfolding next_uid
two_messages-IsNumbered = ((λ i. ground arith), (λ i u. ground arith))

two_messages-HasAttempts : HasAttempts 1 two_messages
two_messages-HasAttempts = ((λ h. omega arith), ((λ h. omega arith), tt))

two_messages-HasIds : HasIds two_messages
two_messages-HasIds i = ground arith

-- The message with UID 2 is deleted, and the next one gets another UID.
apply_all-never_again_example :
    let cs = deletes 1 (10 ∷ []) ∷ upserts (meta 60 ∷ []) ∷ unlists 1 [] ∷ [] in
    IsNumbered (apply_all cs two_messages)
    × HasIds (apply_all cs two_messages)
    × (count (has_number 2) (apply_all cs two_messages).entries
        ≤ count (has_number 2) two_messages.entries)
    × IsSpent 1 2 (apply_all cs two_messages)
    × (count (shows 1 2) (apply_all cs two_messages).entries
        ≤ count (shows 1 2) two_messages.entries)
unfolding next_uid
apply_all-never_again_example =
    apply_all-never_again (deletes 1 (10 ∷ []) ∷ upserts (meta 60 ∷ []) ∷ unlists 1 [] ∷ [])
      two_messages 2 1 2 two_messages-IsNumbered two_messages-HasIds (omega arith)
      (inl (omega arith))

apply-HasAttempts_example : HasAttempts 1 (apply (fails 2 (codes "lost") 1) two_messages)
apply-HasAttempts_example =
    apply-HasAttempts 1 (omega arith) (fails 2 (codes "lost") 1) two_messages refl
      two_messages-IsNumbered two_messages-HasAttempts

reset_keeps_old_rows_example :
    count (is_shown_row 2 1) two_messages.entries
    ≤ count
        (is_orphan_row 2 1)
        (apply_all
          (upserts (meta 1 ∷ meta 2 ∷ []) ∷ deletes 1 (1 ∷ 2 ∷ []) ∷ [])
          (reset_for_uid_validity_change 1 8 two_messages)).entries
reset_keeps_old_rows_example =
    reset_keeps_old_rows 2 1 8 (upserts (meta 1 ∷ meta 2 ∷ []) ∷ deletes 1 (1 ∷ 2 ∷ []) ∷ [])
      two_messages (refl, (refl, tt))

-- The mailbox of two messages shows four after the server has renumbered it.
shown_twice :
    count_mailbox_messages 1 (
      apply_all
        (resets 1 8 ∷ upserts (meta 1 ∷ meta 2 ∷ []) ∷ deletes 1 (1 ∷ 2 ∷ []) ∷ [])
        two_messages)
    ≡ 4
unfolding apply_all reset_for_uid_validity_change upsert_metadata_batch count_mailbox_messages
    delete_missing_uids Text.same
shown_twice = refl

abbrev no_changes : Queue
no_changes = record { rows = []; next_id = 0 }

abbrev one_change : Queue
one_change = record {
  rows =
      (record {
        id = 0;
        account_id = 1;
        mailbox_id = 1;
        kind = store_flags;
        payload = codes "seen";
        idempotency_key = codes "a";
        status = Mutations.pending;
        attempts = 0;
        next_attempt_at = none;
        last_error = none;
        locked_by = none;
        locked_at = none;
        created_at = 5;
      })
      ∷ [];
  next_id = 1;
}

claim_exclusive_example :
    let ids = due_ids no_locks 1 50 9 one_change in
    All
      (λ i. member i ids ≡ false)
      (due_ids no_locks 1 50 9
        (claim_due_mutations (λ ms. ms) no_locks 1 50 (codes "w") 9 one_change).1)
claim_exclusive_example =
    claim_exclusive (λ ms. ms) no_locks no_locks 1 1 50 50 9 9 (codes "w") one_change

no_changes-IsUnique : IsUnique no_changes
no_changes-IsUnique key = omega arith

execute-IsUnique_example :
    IsUnique (execute (enqueues 5 1 1 store_flags (codes "seen") (codes "a")) no_changes)
execute-IsUnique_example =
    execute-IsUnique (enqueues 5 1 1 store_flags (codes "seen") (codes "a")) no_changes
      no_changes-IsUnique

keys_differ : Text.same (codes "a") (codes "b") ≡ false
unfolding Text.same
keys_differ = refl

keys_differ' : Text.same (codes "b") (codes "a") ≡ false
unfolding Text.same
keys_differ' = refl
