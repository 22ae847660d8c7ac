-- ===== src/Store/Steps/History.antt =====
-- Any history of changes to the tables.
use imapped.Base.{
  ℕ, ◌≤◌, ◌<◌, refl, ◌&&◌, not, Option, none, some, List, [], ◌∷◌, arith, ◌==◌, if◌then◌else◌,
  count,
}
use imapped.Store.Sql.{member, update_where}
use imapped.Store.Tables.{pending, skipped_too_large, Message, Database}
use imapped.Store.Messages.{update_flags, holds_uid, has_id, upsert_entry}
use imapped.Store.Bodies.{
  claim_pending_bodies, start_fetching, relink, record_body, store_at, mark_body_failed, give_up,
  mark_body_too_large, reap_stale_claims, is_abandoned, claimable_ids,
}
use imapped.Store.Mailboxes.{
  delete_missing_uids, is_missing, save_checkpoint, finish_scan, advance_scan,
  reset_for_uid_validity_change, forget_uids, restart_scan, refresh_mailbox_counts,
  count_mailbox_messages, count_unseen, upsert_mailbox, listed_row, delete_mailboxes_except,
  is_unlisted,
}
use imapped.Store.Steps.{
  Change, apply, apply_all, upserts, updates_flags, claims, attaches, fails, skips, reaps, deletes,
  saves, resets, recounts, lists, unlists,
}
use imapped.Store.Steps.Upserts.{AllSome, upsert_batch-keeps, attach_body-keeps}
use imapped.Store.Steps.Uids.{IsNumbered, has_number, shows, apply-IsNumbered}
use imapped.Store.Steps.Reuse.{
  HasIds, IsSpent, Later, Later-refl, Later-trans, boxes_updated, entries_updated, entries_deleted,
  boxes_deleted, insert_or_relist-Later, upsert_entry-Later,
}

-- The messages table is another one.
messages_changed :
    (messages : List Message) (next : ℕ) (a b : Database)
    → Later a b
    → Later a (record b { messages = messages; next_message = next })
messages_changed messages next a b h = record {
  ids = h.ids;
  sequence = h.sequence;
  rows = h.rows;
  spent = h.spent;
  uids = h.uids;
}

AllSome-imp :
    {A : Type 0} (P Q : A → Type 0)
    → ((a : A) → P a → Q a)
    → (o : Option A) → AllSome P o
    → AllSome Q o
AllSome-imp P Q f none h = tt
AllSome-imp P Q f (some a) h = f a h

apply-Later : (c : Change) (db : Database) → HasIds db → Later db (apply c db)
unfolding apply update_flags claim_pending_bodies start_fetching mark_body_failed give_up
    mark_body_too_large reap_stale_claims delete_missing_uids save_checkpoint finish_scan
    advance_scan reset_for_uid_validity_change forget_uids restart_scan refresh_mailbox_counts
    relink record_body store_at upsert_mailbox delete_mailboxes_except
apply-Later (upserts metas) db h =
    upsert_batch-keeps (Later db) (λ ms n d k. messages_changed ms n db d k)
      (λ meta m d k.
        AllSome-imp (λ r. Later d r.1) (λ r. Later db r.1) (λ r l. Later-trans db d r.1 k l)
          (upsert_entry meta m d) (upsert_entry-Later meta m d k.ids))
      metas db (Later-refl db h)
apply-Later (updates_flags mailbox_id uid flags modseq) db h =
    entries_updated (holds_uid mailbox_id uid)
      (λ a. record a {
        flags = flags;
        upstream_modseq = if modseq == 0 then a.upstream_modseq else some modseq;
      })
      db (λ a. refl) (λ a. refl) (λ a. refl) h
apply-Later (claims locked mailbox_id limit max_attempts now) db h =
    entries_updated (λ e. member e.id (claimable_ids locked mailbox_id limit max_attempts db))
      (start_fetching now) db (λ a. refl) (λ a. refl) (λ a. refl) h
apply-Later (attaches entry_id digest size blob_key) db h =
    attach_body-keeps (Later db) entry_id size digest blob_key db
      (λ m x k. messages_changed _ _ db _ (
        entries_updated (λ a. a.id == entry_id) (store_at x) db (λ a. refl) (λ a. refl) (λ a. refl)
          h))
      (λ m k. messages_changed _ _ db _ (
        entries_updated (λ a. a.id == entry_id) (λ a. store_at a.message_id a) db (λ a. refl)
          (λ a. refl) (λ a. refl) h))
      (Later-refl db h)
apply-Later (fails entry_id message max_attempts) db h =
    entries_updated (λ a. a.id == entry_id) (give_up message max_attempts) db (λ a. refl)
      (λ a. refl) (λ a. refl) h
apply-Later (skips entry_id) db h =
    entries_updated (λ a. a.id == entry_id)
      (λ a. record a { body_state = skipped_too_large; claimed_at = none }) db (λ a. refl)
      (λ a. refl) (λ a. refl) h
apply-Later (reaps older_than now) db h =
    entries_updated (is_abandoned older_than now)
      (λ a. record a { body_state = pending; claimed_at = none }) db (λ a. refl) (λ a. refl)
      (λ a. refl) h
apply-Later (deletes mailbox_id present) db h =
    entries_deleted (λ e. not (e.mailbox_id == mailbox_id && is_missing present e.upstream_uid)) db
      h
apply-Later (saves now mailbox_id c) db h =
    boxes_updated (has_id mailbox_id)
      (if c.full_scan_completed then finish_scan now c else advance_scan c) db (λ b. ground arith)
      (λ b. ground arith) h
apply-Later (resets mailbox_id uid_validity) db h =
    let a =
      entries_updated (λ e. e.mailbox_id == mailbox_id) forget_uids db (λ a. refl) (λ a. refl)
        (λ a. refl) h in
    Later-trans db _ _ a (
      boxes_updated (has_id mailbox_id) (restart_scan uid_validity)
        (record db {
          entries = update_where (λ e. e.mailbox_id == mailbox_id) forget_uids db.entries;
        })
        (λ b. refl) (λ b. omega arith) a.ids)
apply-Later (recounts mailbox_id) db h =
    boxes_updated (has_id mailbox_id)
      (λ b. record b {
        exists_count = count_mailbox_messages mailbox_id db;
        unseen_count = count_unseen mailbox_id db;
      })
      db (λ b. refl) (λ b. omega arith) h
apply-Later (lists params) db h =
    insert_or_relist-Later (listed_row params.account_id params.canonical_name db) params db h
apply-Later (unlists account_id keep) db h = boxes_deleted (is_unlisted account_id keep) db h

apply_all-Later : (cs : List Change) (db : Database) → HasIds db → Later db (apply_all cs db)
unfolding apply_all
apply_all-Later [] db h = Later-refl db h
apply_all-Later (c ∷ cs) db h =
    let first = apply-Later c db h in
    Later-trans db (apply c db) _ first (apply_all-Later cs (apply c db) first.ids)

apply_all-IsNumbered :
    (cs : List Change) (db : Database) → IsNumbered db → IsNumbered (apply_all cs db)
unfolding apply_all
apply_all-IsNumbered [] db h = h
apply_all-IsNumbered (c ∷ cs) db h = apply_all-IsNumbered cs (apply c db) (apply-IsNumbered c db h)

-- No number is given twice. Any sequence of changes to the tables keeps this: no two rows have one id
-- and no two messages of a mailbox one UID, ids and UIDs in use are below their counters, and no two
-- mailboxes have one id. Starting there, a row id or a UID that was given before stands no oftener
-- afterwards than before, so when its row is gone it never comes back, and a UID that was given stays
-- given, also when its mailbox is deleted.
pub apply_all-never_again :
    (cs : List Change) (db : Database) (i mailbox_id uid : ℕ)
    → IsNumbered db
    → HasIds db
    → i < db.next_entry
    → IsSpent mailbox_id uid db
    → IsNumbered (apply_all cs db)
      × HasIds (apply_all cs db)
      × (count (has_number i) (apply_all cs db).entries ≤ count (has_number i) db.entries)
      × IsSpent mailbox_id uid (apply_all cs db)
      × (count (shows mailbox_id uid) (apply_all cs db).entries
          ≤ count (shows mailbox_id uid) db.entries)
apply_all-never_again cs db i mailbox_id uid h k l s =
    let later = apply_all-Later cs db k in
    (
      apply_all-IsNumbered cs db h,
      later.ids,
      later.rows i l,
      later.spent mailbox_id uid s,
      later.uids mailbox_id uid s,
    )
