-- ===== src/Store/Mailboxes.antt =====
-- internal/store/mailboxes.go, and the parts of messages.go that compare a mailbox with the upstream
-- server: what is known, what has vanished, the checkpoint and the reset for new UIDs.
pub mod Reset
pub mod Listed
use imapped.Base.{
  ℕ, zero, suc, ◌+◌, Bool, true, false, ◌&&◌, ◌||◌, not, Option, none, some, List, [], ◌∷◌, ◌++◌,
  map, leb, ltb, ◌==◌, if◌then◌else◌, select, any, count, take,
}
use imapped.Base.Text
use imapped.Base.Text.{Text, codes}
use imapped.Store.Sql.{update_where, member, is_some, head_of, order_by}
use imapped.Store.Tables.{BodyState, Entry, Mailbox, Database}
use imapped.Store.Messages.{has_id}

abbrev pub is_gone : Option ℕ → Bool
is_gone none = false
is_gone (some t) = true

unfoldable pub count_mailbox_messages : ℕ → Database → ℕ
count_mailbox_messages mailbox_id db =
    count (λ e. e.mailbox_id == mailbox_id && not (is_gone e.expunged_at)) db.entries

abbrev pub uids_of : List Entry → List ℕ
uids_of [] = []
uids_of (e ∷ entries) = elim e.upstream_uid [
  | none ↦ uids_of entries
  | some u ↦ u ∷ uids_of entries
]

unfoldable pub existing_upstream_uids : ℕ → Database → List ℕ
existing_upstream_uids mailbox_id db =
    uids_of (select (λ e. e.mailbox_id == mailbox_id && not (is_gone e.expunged_at)) db.entries)

abbrev pub is_missing : List ℕ → Option ℕ → Bool
is_missing present none = false
is_missing present (some u) = not (member u present)

-- How many rows are deleted, and the rest.
unfoldable pub delete_missing_uids : ℕ → List ℕ → Database → ℕ × Database
delete_missing_uids mailbox_id present db =
    let missing = λ (e : Entry). e.mailbox_id == mailbox_id && is_missing present e.upstream_uid in
    (count missing db.entries, record db { entries = select (λ e. not (missing e)) db.entries })

pub record Checkpoint : Type 0 where
  pub uid_validity : ℕ
  pub uid_next : ℕ
  pub highest_mod_seq : ℕ
  pub metadata_synced_through_uid : ℕ
  pub full_scan_completed : Bool

abbrev pub greatest : ℕ → ℕ → ℕ
greatest a b = if ltb a b then b else a

abbrev pub or_zero : Option ℕ → ℕ
or_zero none = 0
or_zero (some n) = n

unfoldable pub finish_scan : ℕ → Checkpoint → Mailbox → Mailbox
finish_scan now c b = record b {
  uid_validity = some c.uid_validity;
  uid_next = some c.uid_next;
  highest_mod_seq = some (greatest (or_zero b.highest_mod_seq) c.highest_mod_seq);
  metadata_synced_through_uid =
      greatest b.metadata_synced_through_uid c.metadata_synced_through_uid;
  last_full_scan_at = some now;
  resync_required = false;
}

unfoldable pub advance_scan : Checkpoint → Mailbox → Mailbox
advance_scan c b = record b {
  uid_validity = some c.uid_validity;
  metadata_synced_through_uid =
      greatest b.metadata_synced_through_uid c.metadata_synced_through_uid;
  resync_required = false;
}

unfoldable pub save_checkpoint : ℕ → ℕ → Checkpoint → Database → Database
unfolding finish_scan advance_scan
save_checkpoint now mailbox_id c db = record db {
  mailboxes =
      update_where (has_id mailbox_id)
        (if c.full_scan_completed then finish_scan now c else advance_scan c) db.mailboxes;
}

unfoldable pub forget_uids : Entry → Entry
forget_uids e = record e { upstream_uid = none; upstream_modseq = none }

unfoldable pub restart_scan : ℕ → Mailbox → Mailbox
restart_scan uid_validity b = record b {
  uid_validity = some uid_validity;
  highest_mod_seq = some 0;
  metadata_synced_through_uid = 0;
  resync_required = true;
  sync_generation = suc b.sync_generation;
}

unfoldable pub reset_for_uid_validity_change : ℕ → ℕ → Database → Database
unfolding forget_uids restart_scan
reset_for_uid_validity_change mailbox_id uid_validity db = record db {
  entries = update_where (λ e. e.mailbox_id == mailbox_id) forget_uids db.entries;
  mailboxes = update_where (has_id mailbox_id) (restart_scan uid_validity) db.mailboxes;
}

abbrev pub is_seen : Entry → Bool
is_seen e = any (Text.same (codes "\\Seen")) e.flags

unfoldable pub count_unseen : ℕ → Database → ℕ
count_unseen mailbox_id db =
    count (λ e. e.mailbox_id == mailbox_id && not (is_gone e.expunged_at) && not (is_seen e))
      db.entries

unfoldable pub refresh_mailbox_counts : ℕ → Database → Database
unfolding count_mailbox_messages count_unseen
refresh_mailbox_counts mailbox_id db = record db {
  mailboxes =
      update_where (has_id mailbox_id)
        (λ b. record b {
          exists_count = count_mailbox_messages mailbox_id db;
          unseen_count = count_unseen mailbox_id db;
        })
        db.mailboxes;
}

pub record UpsertMailboxParams : Type 0 where
  pub account_id : ℕ
  pub name : Text
  pub canonical_name : Text
  pub delimiter : Option Text
  pub attributes : List Text
  pub special_use : Option Text

-- The unique index mailboxes_account_canonical_key.
unfoldable pub has_canonical : ℕ → Text → Mailbox → Bool
has_canonical account_id canonical_name b =
    b.account_id == account_id && Text.same b.canonical_name canonical_name

unfoldable pub relist : UpsertMailboxParams → Mailbox → Mailbox
relist p b = record b {
  name = p.name;
  delimiter = p.delimiter;
  attributes = p.attributes;
  special_use = p.special_use;
}

-- A new row, with the defaults of its columns.
unfoldable pub first_listed : ℕ → UpsertMailboxParams → Mailbox
first_listed id p = record {
  id = id;
  account_id = p.account_id;
  name = p.name;
  canonical_name = p.canonical_name;
  delimiter = p.delimiter;
  attributes = p.attributes;
  special_use = p.special_use;
  uid_validity = none;
  uid_next = none;
  highest_mod_seq = none;
  metadata_synced_through_uid = 0;
  last_full_scan_at = none;
  resync_required = false;
  sync_generation = 0;
  local_uid_next = 1;
  exists_count = 0;
  unseen_count = 0;
}

unfoldable pub listed_row : ℕ → Text → Database → Option Mailbox
unfolding has_canonical
listed_row account_id canonical_name db =
    head_of (select (has_canonical account_id canonical_name) db.mailboxes)

unfoldable pub insert_or_relist :
    Option Mailbox → UpsertMailboxParams → Database → Mailbox × Database
unfolding relist first_listed has_canonical
insert_or_relist none p db =
    let new = first_listed db.next_mailbox p in
    (new, record db { mailboxes = db.mailboxes ++ new ∷ []; next_mailbox = suc db.next_mailbox })
insert_or_relist (some b) p db = (
  relist p b,
  record db {
    mailboxes = update_where (has_canonical p.account_id p.canonical_name) (relist p) db.mailboxes;
    next_mailbox = suc db.next_mailbox;
  },
)

-- The id is drawn from the sequence before the conflict is seen.
unfoldable pub upsert_mailbox : UpsertMailboxParams → Database → Mailbox × Database
unfolding listed_row insert_or_relist
upsert_mailbox p db = insert_or_relist (listed_row p.account_id p.canonical_name db) p db

-- No mailbox is ErrNotFound.
unfoldable pub get_mailbox : ℕ → Database → Option Mailbox
get_mailbox id db = head_of (select (has_id id) db.mailboxes)

-- `before` is the collation of the column.
unfoldable pub list_mailboxes : (Text → Text → Bool) → ℕ → Database → List Mailbox
list_mailboxes before account_id db =
    order_by (λ a b. before a.canonical_name b.canonical_name)
      (select (λ b. b.account_id == account_id) db.mailboxes)

abbrev pub is_unlisted : ℕ → List Text → Mailbox → Bool
is_unlisted account_id keep b =
    b.account_id == account_id && not (any (Text.same b.canonical_name) keep)

-- How many mailboxes are deleted, and the rest; their entries go with them (ON DELETE CASCADE).
unfoldable pub delete_mailboxes_except : ℕ → List Text → Database → ℕ × Database
delete_mailboxes_except account_id keep db =
    let unlisted = is_unlisted account_id keep in
    (
      count unlisted db.mailboxes,
      record db {
        mailboxes = select (λ b. not (unlisted b)) db.mailboxes;
        entries =
            select (λ e. not (any (λ b. unlisted b && b.id == e.mailbox_id) db.mailboxes))
              db.entries;
      },
    )
