-- ===== src/Syncer/Headers.antt =====
-- internal/syncer/mailbox.go: buildMeta and what it makes of an envelope. strings.ToValidUTF8 and
-- json.Marshal are parameters, as is the text of an address (imap.Address.Addr).
pub mod Quoting
use imapped.Base.{
  ℕ, Bool, true, false, ◌||◌, not, Option, none, some, List, [], ◌∷◌, ◌++◌, map, ◌==◌,
  if◌then◌else◌, select, any, is_empty,
}
use imapped.Base.Text.{Text, codes}
use imapped.Store.Messages.{MessageMeta}

pub record Address : Type 0 where
  pub name : Text
  pub addr : Text

pub record Envelope : Type 0 where
  pub date : Option ℕ
  pub subject : Text
  pub from : List Address
  pub reply_to : List Address
  pub to : List Address
  pub cc : List Address
  pub bcc : List Address
  pub in_reply_to : List Text
  pub message_id : Text

pub record AddressMap : Type 0 where
  pub from : List Text
  pub to : List Text
  pub cc : List Text
  pub bcc : List Text
  pub reply_to : List Text

-- upstream.MessageMeta, less the body structure, which no statement writes.
pub record Fetched : Type 0 where
  pub uid : ℕ
  pub flags : List Text
  pub size : ℕ
  pub internal_date : Option ℕ
  pub envelope : Option Envelope
  pub mod_seq : ℕ

pub record Encoding : Type 0 where
  pub to_valid_utf8 : Text → Text
  pub marshal : AddressMap → Text

abbrev pub is_special : ℕ → Bool
is_special c = any (λ s. s == c) (codes "\"\\<>@,;:.[]()")

abbrev pub escape : Text → Text
escape [] = []
escape (c ∷ cs) = if c == 92 || c == 34 then 92 ∷ c ∷ escape cs else c ∷ escape cs

unfoldable pub quote_display_name : Text → Text
quote_display_name name = if any is_special name then 34 ∷ (escape name ++ 34 ∷ []) else name

module _ (encoding : Encoding) where
  unfoldable pub sanitise_text : Text → Text
  sanitise_text s = if is_empty s then s else encoding.to_valid_utf8 (select (λ c. not (c == 0)) s)

  unfoldable pub render : List Address → List Text
  unfolding sanitise_text quote_display_name
  render = map λ a.
      let addr = sanitise_text a.addr in
      let name = sanitise_text a.name in
      if is_empty name then addr else quote_display_name name ++ (codes " <" ++ (addr ++ codes ">"))

  unfoldable pub address_map : Envelope → AddressMap
  unfolding render
  address_map e = record {
    from = render e.from;
    to = render e.to;
    cc = render e.cc;
    bcc = render e.bcc;
    reply_to = render e.reply_to;
  }

  abbrev pub text_field : Text → Option Text
  text_field t = if is_empty t then none else some (sanitise_text t)

  abbrev pub first_field : List Text → Option Text
  first_field [] = none
  first_field (t ∷ ts) = some (sanitise_text t)

  unfoldable pub build_meta : ℕ → ℕ → Fetched → MessageMeta
  unfolding address_map
  build_meta account_id mailbox_id m =
      let plain : MessageMeta = record {
        account_id = account_id;
        mailbox_id = mailbox_id;
        upstream_uid = m.uid;
        upstream_modseq = m.mod_seq;
        flags = m.flags;
        size = m.size;
        message_id = none;
        in_reply_to = none;
        references = [];
        subject = none;
        addrs = [];
        internal_date = m.internal_date;
        sent_date = none;
      } in
      elim m.envelope [
        | none ↦ plain
        | some e ↦ record plain {
          subject = text_field e.subject;
          message_id = text_field e.message_id;
          in_reply_to = first_field e.in_reply_to;
          sent_date = e.date;
          addrs = encoding.marshal (address_map e);
        }
      ]
