-- ===== src/Store/Bodies.antt =====
-- internal/store/messages.go: claiming, storing and giving up the bodies of messages.
pub mod Exclusive
pub mod Claimed
use imapped.Base.{
  ℕ, zero, suc, ◌+◌, Bool, true, false, ◌&&◌, ◌||◌, not, Option, none, some, List, [], ◌∷◌, ◌++◌,
  map, leb, ltb, ◌==◌, if◌then◌else◌, select, any, count, take,
}
use imapped.Base.Text
use imapped.Base.Text.{Text}
use imapped.Store.Sql.{update_where, order_by, member, head_of, is_some}
use imapped.Store.Tables.{
  BodyState, pending, fetching, stored, skipped_too_large, failed, Message, Entry, Mailbox,
  Database,
}
use imapped.Store.Messages.{same_content}

abbrev pub is_pending : BodyState → Bool
is_pending pending = true
is_pending fetching = false
is_pending stored = false
is_pending skipped_too_large = false
is_pending failed = false

abbrev pub is_fetching : BodyState → Bool
is_fetching fetching = true
is_fetching pending = false
is_fetching stored = false
is_fetching skipped_too_large = false
is_fetching failed = false

abbrev pub uid_of : Option ℕ → ℕ
uid_of none = 0
uid_of (some u) = u

unfoldable pub is_claimable : ℕ → ℕ → Entry → Bool
is_claimable mailbox_id max_attempts e =
    e.mailbox_id == mailbox_id
    && is_pending e.body_state
    && is_some e.upstream_uid
    && ltb e.body_attempts max_attempts

-- The ids that the common table expression `claimed` selects; `locked` says which rows other
-- transactions hold.
unfoldable pub claimable_ids : (ℕ → Bool) → ℕ → ℕ → ℕ → Database → List ℕ
unfolding is_claimable
claimable_ids locked mailbox_id limit max_attempts db =
    map (λ e. e.id)
      (take limit (
        order_by (λ a b. ltb (uid_of b.upstream_uid) (uid_of a.upstream_uid))
          (select (λ e. is_claimable mailbox_id max_attempts e && not (locked e.id)) db.entries)))

unfoldable pub start_fetching : ℕ → Entry → Entry
start_fetching now e = record e { body_state = fetching; claimed_at = some now }

-- The rows claimed, as they are after the update, in the order `returning` that no clause fixes.
-- Every entry's message is there (a foreign key), so the join keeps every row.
unfoldable pub claim_pending_bodies :
    (List Entry → List Entry) → (ℕ → Bool) → ℕ → ℕ → ℕ → ℕ → Database → List Entry × Database
unfolding claimable_ids start_fetching
claim_pending_bodies returning locked mailbox_id limit max_attempts now db =
    let ids = claimable_ids locked mailbox_id limit max_attempts db in
    (
      returning (map (start_fetching now) (select (λ e. member e.id ids) db.entries)),
      record db { entries = update_where (λ e. member e.id ids) (start_fetching now) db.entries },
    )

unfoldable pub store_at : ℕ → Entry → Entry
store_at message_id e = record e {
  message_id = message_id;
  body_state = stored;
  claimed_at = none;
  body_error = none;
}

-- The body's content is stored already, under the message `existing`: the entry points at it, and
-- its old message goes unless another entry holds it.
unfoldable pub relink : ℕ → ℕ → ℕ → Database → Database
unfolding store_at
relink entry_id message_id existing db =
    let entries = update_where (λ e. e.id == entry_id) (store_at existing) db.entries in
    record db {
      entries = entries;
      messages =
          select (λ m. not (m.id == message_id && not (any (λ e. e.message_id == m.id) entries)))
            db.messages;
    }

unfoldable pub record_body : ℕ → ℕ → List ℕ → ℕ → Text → Database → Database
unfolding store_at
record_body entry_id message_id digest size blob_key db = record db {
  messages =
      update_where (λ m. m.id == message_id)
        (λ m. record m { sha256 = digest; size = size; blob_key = some blob_key }) db.messages;
  entries = update_where (λ e. e.id == entry_id) (λ e. store_at e.message_id e) db.entries;
}

abbrev pub is_duplicate : ℕ → List ℕ → ℕ → Message → Bool
is_duplicate account_id digest message_id m =
    same_content account_id digest m && not (m.id == message_id)

-- No database is the error for an entry that is not there.
unfoldable pub attach_body : ℕ → List ℕ → ℕ → Text → Database → Option Database
unfolding relink record_body
attach_body entry_id digest size blob_key db =
    elim (head_of (select (λ e. e.id == entry_id) db.entries)) [
      | none ↦ none
      | some e ↦ elim (head_of (select (λ m. m.id == e.message_id) db.messages)) [
        | none ↦ none
        | some m ↦ elim (head_of (select (is_duplicate m.account_id digest m.id) db.messages)) [
          | some existing ↦ some (relink entry_id m.id existing.id db)
          | none ↦ some (record_body entry_id m.id digest size blob_key db)
        ]
      ]
    ]

unfoldable pub give_up : Text → ℕ → Entry → Entry
give_up message max_attempts e = record e {
  body_attempts = suc e.body_attempts;
  body_error = some message;
  body_state = if leb max_attempts (suc e.body_attempts) then failed else pending;
  claimed_at = none;
}

unfoldable pub mark_body_failed : ℕ → Text → ℕ → Database → Database
unfolding give_up
mark_body_failed entry_id message max_attempts db = record db {
  entries = update_where (λ e. e.id == entry_id) (give_up message max_attempts) db.entries;
}

unfoldable pub mark_body_too_large : ℕ → Database → Database
mark_body_too_large entry_id db = record db {
  entries =
      update_where (λ e. e.id == entry_id)
        (λ e. record e { body_state = skipped_too_large; claimed_at = none }) db.entries;
}

abbrev pub is_abandoned : ℕ → ℕ → Entry → Bool
is_abandoned older_than now e =
    is_fetching e.body_state
    && elim e.claimed_at [ none ↦ false | some t ↦ ltb (t + older_than) now ]

unfoldable pub reap_stale_claims : ℕ → ℕ → Database → ℕ × Database
reap_stale_claims older_than now db = (
  count (is_abandoned older_than now) db.entries,
  record db {
    entries =
        update_where (is_abandoned older_than now)
          (λ e. record e { body_state = pending; claimed_at = none }) db.entries;
  },
)

unfoldable pub count_pending_bodies : ℕ → Database → ℕ
count_pending_bodies mailbox_id db =
    count (λ e. e.mailbox_id == mailbox_id && (is_pending e.body_state || is_fetching e.body_state))
      db.entries

-- No id is the error for an entry that is not there.
unfoldable pub message_id_for_mailbox_message : ℕ → Database → Option ℕ
message_id_for_mailbox_message entry_id db =
    elim (head_of (select (λ e. e.id == entry_id) db.entries)) [
      | none ↦ none
      | some e ↦ some e.message_id
    ]

unfoldable pub count_pending_bodies_for_account : ℕ → Database → ℕ
count_pending_bodies_for_account account_id db =
    count
      (λ e.
        any (λ b. b.id == e.mailbox_id && b.account_id == account_id) db.mailboxes
        && (is_pending e.body_state || is_fetching e.body_state))
      db.entries
