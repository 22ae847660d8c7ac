-- ===== src/Syncer/Tests.antt =====
-- Runs of the planner and of the metadata pass, and instances of the theorems about the syncer.
use imapped.Base.{
  ℕ, ◌+◌, ◌-◌, ◌≤◌, ◌≡◌, refl, true, false, none, some, List, [], ◌∷◌, ◌++◌, arith, ◌==◌, any, All,
  concat,
}
use imapped.Base.Int64
use imapped.Base.Text.{codes}
use imapped.Store.Tables.{Mailbox, Database}
use imapped.Store.Mailboxes.{existing_upstream_uids}
use imapped.Upstream.Errors.{Error, leaf, eof, ok, err}
use imapped.Upstream.Session.{SelectedMailbox}
use imapped.Syncer.NumSets.{range_lists}
use imapped.Syncer.Priority.{MailboxInfo, rank, prioritise}
use imapped.Syncer.Priority.Order.{IsSorted, has_rank, prioritise-IsSorted}
use imapped.Base.{map, select}
use imapped.Base.Text
use imapped.Syncer.Planner
use imapped.Syncer.Planner.{SizedUid, BatchBudget, plan_batches}
use imapped.Syncer.Planner.Batches.{concat-plan_batches}
use imapped.Syncer.Planner.Budget.{InRange, Fits, plan_batches-Fits}
use imapped.Syncer.Planner.Ranges.{plan_metadata_chunks, chunk_ranges, two32}
use imapped.Syncer.Planner.Ranges.Chunks.{plan_metadata_chunks-cover}
use imapped.Syncer.Planner.Ranges.Overflow.{chunk_ranges_endless}
use imapped.Syncer.Claims.{PendingBody, ClaimKey, remembers, takes, granted, remembered}
use imapped.Syncer.Claims.Traces.{present, granted-le-remembered}
use imapped.Syncer.Headers.{Encoding, quote_display_name}
use imapped.Syncer.Headers.Quoting.{read_string, quote_display_name-reads}
use imapped.Syncer.Metadata.{Remote, Settings, metadata_pass}
use imapped.Syncer.Metadata.Keeps.{marks}
use imapped.Syncer.Metadata.Marks.{metadata_pass-marks}

abbrev messages : List SizedUid
messages =
    (record { uid = 1; size = 60 })
    ∷ (record { uid = 2; size = 50 })
    ∷ (record { uid = 3; size = 900 })
    ∷ []

abbrev budget : BatchBudget
budget = record { max_bytes = 100; max_messages = 10; solo_above = 500 }

-- The second message would exceed 100 bytes, and the third one goes alone.
three_batches :
    plan_batches messages budget
    ≡ ((record { uid = 1; size = 60 }) ∷ [])
      ∷ ((record { uid = 2; size = 50 }) ∷ [])
      ∷ ((record { uid = 3; size = 900 }) ∷ [])
      ∷ []
unfolding plan_batches Planner.flush Planner.plan_loop Planner.plan_step Planner.is_solo Int64.lt
    Planner.send_alone Planner.add_message Planner.make_room Planner.is_over Int64.add
three_batches = refl

concat-plan_batches_example : concat (plan_batches messages budget) ≡ messages
concat-plan_batches_example = concat-plan_batches messages budget

budget-InRange : InRange budget
budget-InRange = record { bytes = omega arith; messages = omega arith; solo = omega arith }

plan_batches-Fits_example : All (Fits budget) (plan_batches messages budget)
plan_batches-Fits_example =
    plan_batches-Fits messages budget budget-InRange (omega arith, (omega arith, (omega arith, tt)))

plan_metadata_chunks-cover_example :
    any (λ s. range_lists.contains s 5) (plan_metadata_chunks range_lists (3 ∷ 5 ∷ 9 ∷ []) 2)
    ≡ any (λ a. a == 5) (3 ∷ 5 ∷ 9 ∷ [])
plan_metadata_chunks-cover_example =
    plan_metadata_chunks-cover range_lists (3 ∷ 5 ∷ 9 ∷ []) 2 5 (omega arith) (omega arith)
      (omega arith, (omega arith, (omega arith, tt)))

chunk_ranges_endless_example : chunk_ranges 9 1 (two32 - 1) 1000 ≡ none
chunk_ranges_endless_example =
    chunk_ranges_endless 9 1 1000 (omega arith) (omega arith) (omega arith)

abbrev key : ClaimKey
key = record { mailbox_id = 1; uid = 5 }

abbrev body : PendingBody
body = record { mailbox_message_id = 1; message_id = 1; upstream_uid = 5; size = 9; attempts = 0 }

granted-le-remembered_example :
    granted key (remembers 1 ((5, body) ∷ []) ∷ takes 1 5 ∷ takes 1 5 ∷ []) []
    ≤ remembered key (remembers 1 ((5, body) ∷ []) ∷ takes 1 5 ∷ takes 1 5 ∷ []) + present key []
granted-le-remembered_example =
    granted-le-remembered key (remembers 1 ((5, body) ∷ []) ∷ takes 1 5 ∷ takes 1 5 ∷ []) []

quote_display_name-reads_example :
    read_string (quote_display_name (codes "Doe, \"J\"") ++ codes " <j@x>")
    ≡ some (codes "Doe, \"J\"", codes " <j@x>")
quote_display_name-reads_example =
    quote_display_name-reads (codes "Doe, \"J\"") (codes " <j@x>") refl

abbrev mailbox : Mailbox
mailbox = record {
  id = 1;
  account_id = 1;
  name = codes "INBOX";
  canonical_name = codes "inbox";
  delimiter = none;
  attributes = [];
  special_use = none;
  uid_validity = some 7;
  uid_next = none;
  highest_mod_seq = none;
  metadata_synced_through_uid = 0;
  last_full_scan_at = none;
  resync_required = false;
  sync_generation = 0;
  local_uid_next = 1;
  exists_count = 0;
  unseen_count = 0;
}

abbrev tables : Database
tables = record {
  messages = [];
  entries = [];
  mailboxes = mailbox ∷ [];
  next_message = 1;
  next_entry = 1;
  next_mailbox = 9;
}

-- The server lists two UIDs, and its connection drops at the first FETCH.
abbrev lost : Error
lost = leaf eof (codes "EOF")

abbrev dropping : Remote range_lists.Set Unit
dropping = record {
  ctx_err = λ w. none;
  store_err = λ w. (none, w);
  fetch_metadata = λ s n b w. (err lost, w);
  search_all_uids = λ w. (ok (1 ∷ 2 ∷ []), w);
}

abbrev as_is : Encoding
as_is = record { to_valid_utf8 = λ t. t; marshal = λ m. [] }

abbrev settings : Settings
settings = record { prefer_cond_store = true; metadata_batch_messages = 1 }

abbrev opened : SelectedMailbox
opened = record {
  name = codes "INBOX";
  num_messages = 2;
  uid_validity = 7;
  uid_next = 3;
  highest_mod_seq = 12;
  read_only = true;
}

drops :
    (metadata_pass range_lists dropping as_is settings 9 true 1 mailbox opened tables tt).0
    ≡ err lost
unfolding metadata_pass Int64.lt plan_metadata_chunks existing_upstream_uids
drops = refl

metadata_pass-marks_example :
    marks (metadata_pass range_lists dropping as_is settings 9 true 1 mailbox opened tables tt).1.db
    ≡ marks tables
metadata_pass-marks_example =
    metadata_pass-marks range_lists dropping as_is settings 9 true 1 mailbox opened tables tt lost
      drops

abbrev mailboxes : List MailboxInfo
mailboxes =
    (record { name = codes "Old"; delimiter = 47; attributes = codes "\\Archive" ∷ [] })
    ∷ (record { name = codes "Work"; delimiter = 47; attributes = [] })
    ∷ (record { name = codes "Inbox"; delimiter = 47; attributes = [] })
    ∷ []

inbox_first :
    map (λ b. b.name) (prioritise mailboxes) ≡ codes "Inbox" ∷ codes "Work" ∷ codes "Old" ∷ []
unfolding prioritise rank Text.equal_fold Text.same
inbox_first = refl

prioritise-IsSorted_example :
    IsSorted (prioritise mailboxes)
    × ((r : ℕ) → select (has_rank r) (prioritise mailboxes) ≡ select (has_rank r) mailboxes)
prioritise-IsSorted_example = prioritise-IsSorted mailboxes
