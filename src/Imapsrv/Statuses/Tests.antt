-- ===== src/Imapsrv/Statuses/Tests.antt =====
-- LIST and STATUS on an account with two mailboxes, and an instance of the theorem.
use imapped.Base.{
  ℕ, ◌+◌, ◌^◌, ◌≡◌, refl, true, false, Option, none, some, List, [], ◌∷◌, ◌++◌, arith, ltb,
}
use imapped.Base.Text
use imapped.Base.Text.{Text, codes}
use imapped.Store.Tables.{Mailbox, Database}
use imapped.Store.Mailboxes.{get_mailbox, restart_scan, reset_for_uid_validity_change}
use imapped.Upstream.Errors.{non_existent, ok}
use imapped.Imapsrv.Session.{Backend, Session, done, refused, require_auth, no_reply}
use imapped.Imapsrv.Listing.{match_pattern, matches_any}
use imapped.Imapsrv.Statuses.{
  StatusOptions, StatusData, ListData, status, list, status_for, list_data, attributes_for,
  write_list, uid_validity, xor,
}
use imapped.Imapsrv.Statuses.Validity.{reset-uid_validity}

abbrev box : ℕ → Text → Option Text → ℕ → Mailbox
box id name special_use generation = record {
  id = id;
  account_id = 1;
  name = name;
  canonical_name = name;
  delimiter = none;
  attributes = [];
  special_use = special_use;
  uid_validity = some 7;
  uid_next = none;
  highest_mod_seq = none;
  metadata_synced_through_uid = 0;
  last_full_scan_at = none;
  resync_required = false;
  sync_generation = generation;
  local_uid_next = 5;
  exists_count = 2 ^ 32 + 3;
  unseen_count = 1;
}

abbrev boxes : List Mailbox
boxes = box 1 (codes "INBOX") none 0 ∷ box 2 (codes "Work") (some (codes "\\Archive")) 0 ∷ []

-- The state is what has been written to the client.
abbrev backend : Backend (List ListData)
backend = record {
  list_mailboxes = λ a w. (ok boxes, w);
  list_messages_by_uid = λ m w. (ok [], w);
  set_flags = λ m f w. (none, w);
  enqueue_store_flags = λ a m p w. (none, w);
}

abbrev logged_in : Session
logged_in = record {
  user = some 1;
  account = some 1;
  mailbox = none;
  read_only = false;
  snapshot = [];
}

abbrev counts : StatusOptions
counts = record { num_messages = true; num_unseen = false; uid_next = true; uid_validity = false }

abbrev work_status : StatusData
work_status = record {
  mailbox = codes "Work";
  num_messages = some 3;
  num_unseen = none;
  uid_next = 5;
  uid_validity = 0;
}

-- The name in other letters; the count of messages is cut to 32 bits.
found_status : status backend (codes "wORK") (some counts) logged_in [] ≡ (done work_status, [])
unfolding status require_auth Text.equal_fold status_for
found_status = refl

no_such_mailbox :
    (status backend (codes "Play") none logged_in []).0
    ≡ refused (record { is_bad = false; code = non_existent; text = codes "no such mailbox" })
unfolding status require_auth Text.equal_fold
no_such_mailbox = refl

not_logged_in :
    (status backend (codes "Work") none (record logged_in { account = none }) []).0
    ≡ refused (no_reply (codes "not authenticated"))
unfolding status require_auth
not_logged_in = refl

-- LIST "" "W%" RETURN (STATUS (MESSAGES UIDNEXT))
work_listed :
    list backend (λ d w. (none, w ++ d ∷ [])) [] (codes "Work" ∷ []) (some counts) logged_in [] ≡ (
      done tt,
      record {
        mailbox = codes "Work";
        delim = 47;
        attrs = codes "\\Archive" ∷ codes "\\HasNoChildren" ∷ [];
        status = some work_status;
      }
          ∷ [],
    )
unfolding list require_auth matches_any match_pattern Text.same Text.equal_fold list_data status_for
    attributes_for write_list
work_listed = refl

-- A reset can lower the UIDVALIDITY.
lower_after_reset : ltb (uid_validity (box 1 [] none 1)) (uid_validity (box 1 [] none 0)) ≡ true
unfolding uid_validity xor
lower_after_reset = refl

-- Two mailboxes can have the same one.
same_of_two : uid_validity (box 2 [] none 0) ≡ uid_validity (box 3 [] none 256)
unfolding uid_validity xor
same_of_two = refl

abbrev database : Database
database = record {
  messages = [];
  entries = [];
  mailboxes = boxes;
  next_message = 1;
  next_entry = 1;
  next_mailbox = 3;
}

reset-uid_validity_example :
    (get_mailbox 2 (reset_for_uid_validity_change 2 8 database)
      ≡ some (restart_scan 8 (box 2 (codes "Work") (some (codes "\\Archive")) 0)))
    × (uid_validity (restart_scan 8 (box 2 (codes "Work") (some (codes "\\Archive")) 0))
          ≡ uid_validity (box 2 (codes "Work") (some (codes "\\Archive")) 0)
        → ⊥)
unfolding get_mailbox
reset-uid_validity_example =
    reset-uid_validity 2 8 database (box 2 (codes "Work") (some (codes "\\Archive")) 0) refl
      (omega arith)
