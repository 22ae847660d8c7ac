-- ===== src/Syncer/Mirror/Tests.antt =====
-- A run of the work on one mailbox, and instances of the theorems about it.
use imapped.Base.{ℕ, ◌≡◌, refl, true, false, Option, none, some, List, [], ◌∷◌, ◌++◌, map}
use imapped.Base.Text
use imapped.Base.Text.{Text, codes}
use imapped.Store.Tables.{BodyState, stored}
use imapped.Base.Int64
use imapped.Store.Sql.{order_by}
use imapped.Store.Bodies.{attach_body, message_id_for_mailbox_message, claim_pending_bodies}
use imapped.Store.Mailboxes.{
  upsert_mailbox, existing_upstream_uids, count_mailbox_messages, save_checkpoint,
  refresh_mailbox_counts,
}
use imapped.Store.Mailboxes.Listed.{Progress, IsFresh, progress, upsert_mailbox-progress}
use imapped.Upstream.Errors.{Error, ok, has_cause, classify, as_upstream, severity_of}
use imapped.Upstream.Session.{
  SelectedMailbox, do_command, ensure_connected, recoverable, select_mailbox, close_session,
}
use imapped.Upstream.Bodies.{fetch_bodies}
use imapped.Syncer.NumSets.{range_lists}
use imapped.Syncer.Priority.{MailboxInfo}
use imapped.Syncer.Account.{MailboxCounts}
use imapped.Syncer.Planner.{
  SizedUid, plan_batches, flush, plan_loop, plan_step, is_solo, add_message, make_room, is_over,
  at_least_one,
}
use imapped.Syncer.Planner.Ranges.{plan_metadata_chunks}
use imapped.Syncer.Claims.{find, delete, same_key, take_claim, remember, assign}
use imapped.Syncer.Bodies.{handle_body, fetch_batch, fetch_command, carry}
use imapped.Syncer.Metadata.{metadata_pass, sort_known}
use imapped.Syncer.Pool.{fetch_once, produce, hear, work, run, start, pending_body, verdict}
use imapped.Syncer.Pool.Tests.{before, dialer, pass_with, inbox}
use imapped.Syncer.Mirror.{Mirror, sync_mailbox, mailbox_params, current_row, Outcome}
use imapped.Syncer.Mirror.Rows.{Fits, same_row, current_row-Fits}

abbrev selected : ℕ → SelectedMailbox
selected uid_validity = record {
  name = codes "INBOX";
  num_messages = 2;
  uid_validity = uid_validity;
  uid_next = 3;
  highest_mod_seq = 0;
  read_only = true;
}

abbrev mirror : Mirror Unit ℕ
mirror = record {
  account_id = 1;
  encoding = record { to_valid_utf8 = λ t. t; marshal = λ m. [] };
  settings = record { prefer_cond_store = true; metadata_batch_messages = 10 };
  now = 20;
  has_cond_store = false;
  sets = range_lists;
  remote = record {
    ctx_err = λ w. none;
    store_err = λ w. (none, w);
    fetch_metadata = λ s n b w. (ok [], w);
    search_all_uids = λ w. (ok (1 ∷ 2 ∷ []), w);
  };
  store_err = λ w. (none, w);
  select = λ name w. (ok (selected 1), w);
  body_pass = λ m. record (pass_with dialer) { mailbox = m };
}

abbrev box : Text → MailboxInfo
box name = record { name = name; delimiter = 47; attributes = [] }

abbrev outcome : Option (Outcome mirror)
outcome =
    sync_mailbox mirror (work 0 ∷ produce ∷ work 0 ∷ work 0 ∷ produce ∷ produce ∷ [])
      (hear ∷ produce ∷ work 0 ∷ []) (box (codes "Inbox")) (record { db = before.db; claims = [] })
      0

abbrev summary : Option (Outcome mirror) → Option (Option Error × MailboxCounts × List BodyState)
summary none = none
summary (some o) = some (o.0, o.1, map (λ e. e.body_state) o.2.db.entries)

both_passes :
    summary outcome
    ≡ some (
      none,
      record { messages_new = 0; bodies_fetched = 2; bytes_fetched = 6 },
      stored ∷ stored ∷ [],
    )
unfolding sync_mailbox run start claim_pending_bodies pending_body plan_batches remember
    select_mailbox do_command ensure_connected recoverable Int64.lt Int64.add fetch_command carry
    fetch_once fetch_batch fetch_bodies handle_body take_claim find same_key attach_body Text.same
    message_id_for_mailbox_message delete has_cause classify as_upstream severity_of close_session
    verdict order_by flush plan_loop plan_step is_solo add_message make_room is_over at_least_one
    assign upsert_mailbox Text.to_lower mailbox_params metadata_pass plan_metadata_chunks
    existing_upstream_uids count_mailbox_messages save_checkpoint refresh_mailbox_counts current_row
    sort_known
both_passes = refl

same_row_example :
    (upsert_mailbox
      (mailbox_params 1 (box (codes "work")))
      (upsert_mailbox (mailbox_params 1 (box (codes "Work"))) before.db).1).0.id
    ≡ (upsert_mailbox (mailbox_params 1 (box (codes "Work"))) before.db).0.id
unfolding Text.to_lower
same_row_example = same_row 1 (box (codes "Work")) (box (codes "work")) before.db refl

current_row-Fits_example :
    Fits inbox (selected 2) (current_row mirror inbox (selected 2) before.db 0)
current_row-Fits_example = current_row-Fits mirror inbox (selected 2) before.db 0

upsert_mailbox-progress_example :
    (new : List Progress) × (map progress
        (upsert_mailbox (mailbox_params 1 (box (codes "Work"))) before.db).1.mailboxes
      ≡ map progress before.db.mailboxes ++ new)
    × IsFresh before.db.next_mailbox new
upsert_mailbox-progress_example =
    upsert_mailbox-progress (mailbox_params 1 (box (codes "Work"))) before.db

abbrev first_message : List SizedUid
first_message = record { uid = 1; size = 3 } ∷ []
