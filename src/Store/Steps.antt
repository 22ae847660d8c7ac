-- ===== src/Store/Steps.antt =====
-- The changes that internal/store/messages.go and mailboxes.go make to the tables, as steps: a
-- transaction that fails leaves the database as it was.
pub mod Upserts
pub mod Attempts
pub mod Uids
pub mod Reuse
pub mod History
use imapped.Base.{ℕ, Bool, Option, none, some, List, [], ◌∷◌}
use imapped.Base.Text.{Text}
use imapped.Store.Tables.{Entry, Database}
use imapped.Store.Messages.{MessageMeta, upsert_metadata, upsert_metadata_batch, update_flags}
use imapped.Store.Bodies.{
  claim_pending_bodies, attach_body, mark_body_failed, mark_body_too_large, reap_stale_claims,
}
use imapped.Store.Mailboxes.{
  delete_missing_uids, Checkpoint, save_checkpoint, reset_for_uid_validity_change,
  refresh_mailbox_counts, UpsertMailboxParams, upsert_mailbox, delete_mailboxes_except,
}

pub data Change : Type 0 where
  upserts : List MessageMeta → Change
  updates_flags : ℕ → ℕ → List Text → ℕ → Change
  claims : (ℕ → Bool) → ℕ → ℕ → ℕ → ℕ → Change
  attaches : ℕ → List ℕ → ℕ → Text → Change
  fails : ℕ → Text → ℕ → Change
  skips : ℕ → Change
  reaps : ℕ → ℕ → Change
  deletes : ℕ → List ℕ → Change
  saves : ℕ → ℕ → Checkpoint → Change
  resets : ℕ → ℕ → Change
  recounts : ℕ → Change
  lists : UpsertMailboxParams → Change
  unlists : ℕ → List Text → Change

-- What a transaction leaves behind: the new database, or after an error the old one.
abbrev pub rolled_back : Database → Option Database → Database
rolled_back db none = db
rolled_back db (some db') = db'

abbrev pub database_of : Option (ℕ × Database) → Option Database
database_of none = none
database_of (some r) = some r.1

unfoldable pub apply : Change → Database → Database
apply (upserts metas) db = rolled_back db (database_of (upsert_metadata_batch metas db))
apply (updates_flags mailbox_id uid flags modseq) db = update_flags mailbox_id uid flags modseq db
apply (claims locked mailbox_id limit max_attempts now) db =
    (claim_pending_bodies (λ es. es) locked mailbox_id limit max_attempts now db).1
apply (attaches entry_id digest size blob_key) db =
    rolled_back db (attach_body entry_id digest size blob_key db)
apply (fails entry_id message max_attempts) db = mark_body_failed entry_id message max_attempts db
apply (skips entry_id) db = mark_body_too_large entry_id db
apply (reaps older_than now) db = (reap_stale_claims older_than now db).1
apply (deletes mailbox_id present) db = (delete_missing_uids mailbox_id present db).1
apply (saves now mailbox_id c) db = save_checkpoint now mailbox_id c db
apply (resets mailbox_id uid_validity) db = reset_for_uid_validity_change mailbox_id uid_validity db
apply (recounts mailbox_id) db = refresh_mailbox_counts mailbox_id db
apply (lists params) db = (upsert_mailbox params db).1
apply (unlists account_id keep) db = (delete_mailboxes_except account_id keep db).1

unfoldable pub apply_all : List Change → Database → Database
unfolding apply
apply_all [] db = db
apply_all (c ∷ cs) db = apply_all cs (apply c db)
