-- ===== src/Store/Messages.antt =====
-- internal/store/messages.go: messages, their presence in mailboxes, and the download of their
-- bodies. A statement acts on the whole tables; a transaction that fails leaves them as they were,
-- which here is an Option without a database.
use imapped.Base.{
  ℕ, suc, Bool, true, false, ◌&&◌, Option, none, some, List, [], ◌∷◌, ◌++◌, map, ◌==◌,
  if◌then◌else◌, select,
}
use imapped.Base.Text
use imapped.Base.Text.{Text, codes}
use imapped.Store.Sql.{update_where, head_of, nth_byte}
use imapped.Store.Tables.{pending, Message, Entry, Mailbox, Database}

-- What is learned of a message before its body arrives; the fields that no statement writes are
-- left out.
pub record MessageMeta : Type 0 where
  pub account_id : ℕ
  pub mailbox_id : ℕ
  pub upstream_uid : ℕ
  pub upstream_modseq : ℕ
  pub flags : List Text
  pub size : ℕ
  pub message_id : Option Text
  pub in_reply_to : Option Text
  pub references : List Text
  pub subject : Option Text
  pub addrs : Text
  pub internal_date : Option ℕ
  pub sent_date : Option ℕ

-- The bytes of "pending:", of the mailbox and of the UID, least significant first, and zeros.
unfoldable pub placeholder_digest : ℕ → ℕ → List ℕ
placeholder_digest mailbox_id uid =
    let octets = 0 ∷ 1 ∷ 2 ∷ 3 ∷ 4 ∷ 5 ∷ 6 ∷ 7 ∷ [] in
    codes "pending:"
    ++ (map (nth_byte mailbox_id) octets ++ (map (nth_byte uid) octets ++ map (λ i. 0) octets))

abbrev pub nullable_int : ℕ → Option ℕ
nullable_int v = if v == 0 then none else some v

-- COALESCE($8, '{}'::jsonb)
abbrev pub json_or_empty : Text → Text
json_or_empty raw = if Text.same raw [] then codes "{}" else raw

abbrev pub same_content : ℕ → List ℕ → Message → Bool
same_content account_id digest m = m.account_id == account_id && Text.same m.sha256 digest

-- The first statement of upsertMetadataTx: the message's id and the new table.
unfoldable pub upsert_message : MessageMeta → Database → ℕ × Database
unfolding placeholder_digest
upsert_message meta db =
    let digest = placeholder_digest meta.mailbox_id meta.upstream_uid in
    elim (head_of (select (same_content meta.account_id digest) db.messages)) [
      | some m ↦ (
        m.id,
        record db {
          messages =
              update_where (same_content meta.account_id digest)
                (λ m. record m { subject = meta.subject }) db.messages;
        },
      )
      | none ↦ (
        db.next_message,
        record db {
          messages =
              db.messages
              ++ (record {
                id = db.next_message;
                account_id = meta.account_id;
                sha256 = digest;
                size = meta.size;
                message_id_hdr = meta.message_id;
                in_reply_to = meta.in_reply_to;
                refs = meta.references;
                subject = meta.subject;
                addrs = json_or_empty meta.addrs;
                internal_date = meta.internal_date;
                sent_date = meta.sent_date;
                blob_key = none;
              })
                ∷ [];
          next_message = suc db.next_message;
        },
      )
    ]

-- The partial unique index on (mailbox_id, upstream_uid).
abbrev pub holds_uid : ℕ → ℕ → Entry → Bool
holds_uid mailbox_id uid e =
    e.mailbox_id == mailbox_id && elim e.upstream_uid [ none ↦ false | some u ↦ u == uid ]

abbrev pub has_id : ℕ → Mailbox → Bool
has_id mailbox_id b = b.id == mailbox_id

unfoldable pub allocate_uid : ℕ → List Mailbox → List Mailbox
allocate_uid mailbox_id =
    update_where (has_id mailbox_id) (λ b. record b { local_uid_next = suc b.local_uid_next })

-- The second statement: the row's id and whether it is new. A mailbox that is not there yields no
-- row, which is an error. The counter moves on a conflict too.
unfoldable pub upsert_entry : MessageMeta → ℕ → Database → Option ((ℕ × Bool) × Database)
unfolding allocate_uid
upsert_entry meta message_id db = elim (head_of (select (has_id meta.mailbox_id) db.mailboxes)) [
  | none ↦ none
  | some mailbox ↦
      elim (head_of (select (holds_uid meta.mailbox_id meta.upstream_uid) db.entries)) [
        | some e ↦ some (
          (e.id, false),
          record db {
            mailboxes = allocate_uid meta.mailbox_id db.mailboxes;
            entries =
                update_where (holds_uid meta.mailbox_id meta.upstream_uid)
                  (λ e. record e {
                    flags = meta.flags;
                    upstream_modseq = nullable_int meta.upstream_modseq;
                  })
                  db.entries;
          },
        )
        | none ↦ some (
          (db.next_entry, true),
          record db {
            mailboxes = allocate_uid meta.mailbox_id db.mailboxes;
            entries =
                db.entries
                ++ (record {
                  id = db.next_entry;
                  mailbox_id = meta.mailbox_id;
                  message_id = message_id;
                  local_uid = mailbox.local_uid_next;
                  upstream_uid = some meta.upstream_uid;
                  upstream_modseq = nullable_int meta.upstream_modseq;
                  flags = meta.flags;
                  body_state = pending;
                  body_attempts = 0;
                  body_error = none;
                  claimed_at = none;
                  expunged_at = none;
                })
                  ∷ [];
            next_entry = suc db.next_entry;
          },
        )
      ]
]

unfoldable pub upsert_metadata : MessageMeta → Database → Option ((ℕ × Bool) × Database)
unfolding upsert_message upsert_entry
upsert_metadata meta db = let r = upsert_message meta db in upsert_entry meta r.0 r.1

unfoldable pub upsert_all : List MessageMeta → ℕ → Database → Option (ℕ × Database)
unfolding upsert_metadata
upsert_all [] created db = some (created, db)
upsert_all (meta ∷ metas) created db = elim (upsert_metadata meta db) [
  | none ↦ none
  | some r ↦ upsert_all metas (if r.0.1 then suc created else created) r.1
]

-- How many messages are new, and the database after the commit.
unfoldable pub upsert_metadata_batch : List MessageMeta → Database → Option (ℕ × Database)
unfolding upsert_all
upsert_metadata_batch metas db = upsert_all metas 0 db

-- COALESCE(NULLIF($4, 0), upstream_modseq)
unfoldable pub update_flags : ℕ → ℕ → List Text → ℕ → Database → Database
update_flags mailbox_id uid flags modseq db = record db {
  entries =
      update_where (holds_uid mailbox_id uid)
        (λ e. record e {
          flags = flags;
          upstream_modseq = if modseq == 0 then e.upstream_modseq else some modseq;
        })
        db.entries;
}
