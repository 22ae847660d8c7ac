-- ===== src/Store/Tables.antt =====
-- The rows that internal/store/messages.go and mailboxes.go keep: the tables messages,
-- mailbox_messages and mailboxes, and their id sequences. A column that has NULL is an Option.
use imapped.Base.{ℕ, Bool, Option, List}
use imapped.Base.Text.{Text}

pub data BodyState : Type 0 where
  pending fetching stored skipped_too_large failed : BodyState

-- A row of the table messages.
pub record Message : Type 0 where
  pub id : ℕ
  pub account_id : ℕ
  pub sha256 : List ℕ
  pub size : ℕ
  pub message_id_hdr : Option Text
  pub in_reply_to : Option Text
  pub refs : List Text
  pub subject : Option Text
  pub addrs : Text
  pub internal_date : Option ℕ
  pub sent_date : Option ℕ
  pub blob_key : Option Text

-- A row of the table mailbox_messages.
pub record Entry : Type 0 where
  pub id : ℕ
  pub mailbox_id : ℕ
  pub message_id : ℕ
  pub local_uid : ℕ
  pub upstream_uid : Option ℕ
  pub upstream_modseq : Option ℕ
  pub flags : List Text
  pub body_state : BodyState
  pub body_attempts : ℕ
  pub body_error : Option Text
  pub claimed_at : Option ℕ
  pub expunged_at : Option ℕ

pub record Mailbox : Type 0 where
  pub id : ℕ
  pub account_id : ℕ
  pub name : Text
  pub canonical_name : Text
  pub delimiter : Option Text
  pub attributes : List Text
  pub special_use : Option Text
  pub uid_validity : Option ℕ
  pub uid_next : Option ℕ
  pub highest_mod_seq : Option ℕ
  pub metadata_synced_through_uid : ℕ
  pub last_full_scan_at : Option ℕ
  pub resync_required : Bool
  pub sync_generation : ℕ
  pub local_uid_next : ℕ
  pub exists_count : ℕ
  pub unseen_count : ℕ

pub record Database : Type 0 where
  pub messages : List Message
  pub entries : List Entry
  pub mailboxes : List Mailbox
  pub next_message : ℕ
  pub next_entry : ℕ
  pub next_mailbox : ℕ
