-- ===== src/Imapsrv/Tests.antt =====
-- Runs of the server's parts, and instances of the theorems about them.
use imapped.Base.{
  ℕ, ◌≤◌, ◌≡◌, refl, true, false, none, some, List, [], ◌∷◌, ◌++◌, arith, ◌==◌, count,
}
use imapped.Base.Text
use imapped.Base.Text.{Text, codes}
use imapped.Store.Tables.{Mailbox}
use imapped.Syncer.NumSets.{range_lists}
use imapped.Imapsrv.Flags.{StoreFlags, add_flags, has_flag, apply_flag_change}
use imapped.Imapsrv.Flags.Changes.{is_set_after, apply_flag_change-has_flag}
use imapped.Imapsrv.Sections.{Summary, crlf, header_bytes, text_bytes, select_header_fields}
use imapped.Imapsrv.Search
use imapped.Imapsrv.Search.{Criteria, criteria, Conditions, no_more, no_ors}
use imapped.Imapsrv.Session.{Session, uid_set, done, resolve, found, search}
use imapped.Imapsrv.Session.Numbers.{resolve-search}

abbrev mark_seen : StoreFlags
mark_seen = record { op = add_flags; silent = false; flags = codes "\\Seen" ∷ [] }

-- A flag that is set already, in other letters, is not set twice.
seen_once : apply_flag_change (codes "\\SEEN" ∷ []) mark_seen ≡ codes "\\SEEN" ∷ []
unfolding apply_flag_change Text.equal_fold
seen_once = refl

apply_flag_change-has_flag_example :
    has_flag (apply_flag_change (codes "\\SEEN" ∷ []) mark_seen) (codes "\\Seen")
    ≡ is_set_after (codes "\\SEEN" ∷ []) mark_seen (codes "\\Seen")
apply_flag_change-has_flag_example =
    apply_flag_change-has_flag (codes "\\SEEN" ∷ []) mark_seen (codes "\\Seen")

abbrev letter : Text
letter = codes "To: a" ++ (crlf ++ (codes "Cc: b" ++ (crlf ++ (crlf ++ codes "hi"))))

letter_text : text_bytes letter ≡ codes "hi"
unfolding text_bytes Text.index
letter_text = refl

only_cc :
    select_header_fields (header_bytes letter) (codes "CC" ∷ []) false
    ≡ codes "Cc: b" ++ (crlf ++ crlf)
unfolding select_header_fields header_bytes Text.index Text.same Text.to_lower
only_cc = refl

abbrev message : ℕ → List Text → Summary
message uid flags = record {
  mailbox_message_id = uid;
  local_uid = uid;
  upstream_uid = uid;
  flags = flags;
  size = 10;
  subject = [];
  message_id_hdr = [];
  from = [];
  to = [];
  cc = [];
  preview = [];
  sent_date = none;
  internal_date = none;
  body_state = [];
}

abbrev inbox : Mailbox
inbox = record {
  id = 1;
  account_id = 1;
  name = codes "INBOX";
  canonical_name = codes "inbox";
  delimiter = none;
  attributes = [];
  special_use = none;
  uid_validity = none;
  uid_next = none;
  highest_mod_seq = none;
  metadata_synced_through_uid = 0;
  last_full_scan_at = none;
  resync_required = false;
  sync_generation = 0;
  local_uid_next = 9;
  exists_count = 0;
  unseen_count = 0;
}

abbrev two_selected : Session
two_selected = record {
  user = some 1;
  account = some 1;
  mailbox = some inbox;
  read_only = false;
  snapshot = message 4 [] ∷ message 8 (codes "\\Seen" ∷ []) ∷ [];
}

-- SEARCH SEEN
abbrev seen : Criteria range_lists.Set
seen =
    criteria
      (record {
        seq_num = [];
        uid = [];
        flag = codes "\\Seen" ∷ [];
        not_flag = [];
        larger = 0;
        smaller = 0;
        since = none;
        before = none;
        header = [];
        body = [];
        text = [];
      })
      no_more no_ors

two_selected-found : search range_lists true seen two_selected ≡ done (uid_set ((8, 8) ∷ []))
unfolding search Search.matches_criteria Search.conditions_hold has_flag Text.equal_fold
two_selected-found = refl

two_selected-uids : (i : ℕ) → count (λ m. m.local_uid == i) two_selected.snapshot ≤ 1
two_selected-uids i = ground arith

resolve-search_example :
    resolve range_lists (uid_set ((8, 8) ∷ [])) two_selected ≡ found range_lists seen two_selected
resolve-search_example =
    resolve-search range_lists true seen two_selected (uid_set ((8, 8) ∷ []))
      (omega arith, (omega arith, tt)) two_selected-uids two_selected-found
