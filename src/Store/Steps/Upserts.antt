-- ===== src/Store/Steps/Upserts.antt =====
-- What a batch of new metadata and a stored body keep, when their statements keep it.
use imapped.Base.{
  ℕ, suc, inl, inr, Bool, Option, none, some, List, [], ◌∷◌, ◌==◌, if◌then◌else◌, select,
  Option-cases,
}
use imapped.Base.Text.{Text}
use imapped.Store.Sql.{head_of}
use imapped.Store.Tables.{Message, Database}
use imapped.Store.Messages.{
  MessageMeta, upsert_message, upsert_entry, upsert_metadata, upsert_all, upsert_metadata_batch,
  same_content, placeholder_digest,
}
use imapped.Store.Bodies.{attach_body, relink, record_body, is_duplicate}
use imapped.Store.Steps.{rolled_back, database_of}

abbrev pub AllSome {ℓ} : {A : Type ℓ} → (A → Type 0) → Option A → Type 0
AllSome P none = Unit
AllSome P (some a) = P a

module _ (P : Database → Type 0)
    (keeps_messages : (messages : List Message) (next : ℕ) (db : Database)
      → P db
      → P (record db { messages = messages; next_message = next }))
    (keeps_entry : (meta : MessageMeta) (message_id : ℕ) (db : Database)
      → P db
      → AllSome (λ r. P r.1) (upsert_entry meta message_id db)) where
  upsert_message-keeps : (meta : MessageMeta) (db : Database) → P db → P (upsert_message meta db).1
  unfolding upsert_message
  upsert_message-keeps meta db h =
      elim (Option-cases (
        head_of (
          select
            (same_content meta.account_id (placeholder_digest meta.mailbox_id meta.upstream_uid))
            db.messages))) [
              | inl e ↦ rw (e, upsert_message) (keeps_messages _ _ db h)
              | inr e ↦ rw (e.1, upsert_message) (keeps_messages _ _ db h)
            ]

  upsert_metadata-keeps :
      (meta : MessageMeta) (db : Database) → P db → AllSome (λ r. P r.1) (upsert_metadata meta db)
  unfolding upsert_metadata
  upsert_metadata-keeps meta db h =
      keeps_entry meta (upsert_message meta db).0 (upsert_message meta db).1
        (upsert_message-keeps meta db h)

  pub upsert_all-keeps :
      (metas : List MessageMeta) (created : ℕ) (db : Database)
      → P db
      → AllSome (λ r. P r.1) (upsert_all metas created db)
  unfolding upsert_all
  upsert_all-keeps [] created db h = h
  upsert_all-keeps (meta ∷ metas) created db h =
      go (upsert_metadata meta db) (upsert_metadata-keeps meta db h) (upsert_all-keeps metas)
    where
      go :
          (o : Option ((ℕ × Bool) × Database))
          → AllSome (λ r. P r.1) o
          → ((n : ℕ) (db' : Database) → P db' → AllSome (λ r. P r.1) (upsert_all metas n db'))
          → AllSome
              (λ r. P r.1)
              (elim o [
                | none ↦ none
                | some r ↦ upsert_all metas (if r.0.1 then suc created else created) r.1
              ])
      go none k ih = tt
      go (some r) k ih = ih _ r.1 k

  pub upsert_batch-keeps :
      (metas : List MessageMeta) (db : Database)
      → P db
      → P (rolled_back db (database_of (upsert_metadata_batch metas db)))
  unfolding upsert_metadata_batch
  upsert_batch-keeps metas db h = go (upsert_all metas 0 db) (upsert_all-keeps metas 0 db h)
    where
      go : (o : Option (ℕ × Database)) → AllSome (λ r. P r.1) o → P (rolled_back db (database_of o))
      go none k = h
      go (some r) k = k

module _ (P : Database → Type 0) (entry_id size : ℕ) (digest : List ℕ) (blob_key : Text)
    (db : Database)
    (keeps_relink : (message_id existing : ℕ) → P db → P (relink entry_id message_id existing db))
    (keeps_record : (message_id : ℕ)
      → P db
      → P (record_body entry_id message_id digest size blob_key db)) where
  pub attach_body-keeps : P db → P (rolled_back db (attach_body entry_id digest size blob_key db))
  unfolding attach_body
  attach_body-keeps h = elim (Option-cases (head_of (select (λ e. e.id == entry_id) db.entries))) [
    | inl e ↦ rw (e, attach_body) h
    | inr e ↦ elim (Option-cases (head_of (select (λ m. m.id == e.0.message_id) db.messages))) [
      | inl k ↦ rw (e.1, attach_body) (rw k h)
      | inr k ↦
          elim (Option-cases
            (head_of (select (is_duplicate k.0.account_id digest k.0.id) db.messages))) [
              | inl l ↦ rw (e.1, attach_body) (rw k.1 (rw l (keeps_record k.0.id h)))
              | inr l ↦ rw (e.1, attach_body) (rw k.1 (rw l.1 (keeps_relink k.0.id l.0.id h)))
            ]
    ]
  ]
