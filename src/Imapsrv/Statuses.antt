-- ===== src/Imapsrv/Statuses.antt =====
-- internal/imapsrv/list.go and session.go: LIST and STATUS over the store, and the UIDVALIDITY that
-- clients see.
pub mod Validity
mod Tests
use imapped.Base.{
  ℕ, zero, suc, ◌+◌, ◌*◌, ◌/◌, ◌%◌, ◌^◌, Bool, true, false, Option, none, some, List, [], ◌∷◌, ◌++◌,
  if◌then◌else◌, select, is_empty, map,
}
use imapped.Base.Text
use imapped.Base.Text.{Text, codes}
use imapped.Store.Sql.{head_of}
use imapped.Store.Tables.{Mailbox}
use imapped.Upstream.Errors.{non_existent, Error, ok, err}
use imapped.Imapsrv.Session.{
  Refusal, Reply, done, refused, fails, Backend, Session, internal_error, require_auth,
}
use imapped.Imapsrv.Listing.{matches_any}

-- The exclusive or of the lowest `w` bits.
unfoldable pub xor : ℕ → ℕ → ℕ → ℕ
xor zero a b = 0
xor (suc w) a b = (a % 2 + b % 2) % 2 + 2 * xor w (a / 2) (b / 2)

abbrev pub uint32 : ℕ → ℕ
uint32 n = n % 2 ^ 32

unfoldable pub uid_validity : Mailbox → ℕ
unfolding xor
uid_validity m = xor 32 (xor 32 (uint32 (m.id * 2 ^ 8)) (uint32 m.sync_generation)) 0x9E3779B9

pub record StatusOptions : Type 0 where
  pub num_messages : Bool
  pub num_unseen : Bool
  pub uid_next : Bool
  pub uid_validity : Bool

-- A UID or a UIDVALIDITY that is not asked for is 0.
pub record StatusData : Type 0 where
  pub mailbox : Text
  pub num_messages : Option ℕ
  pub num_unseen : Option ℕ
  pub uid_next : ℕ
  pub uid_validity : ℕ

unfoldable pub status_for : Mailbox → Option StatusOptions → StatusData
unfolding uid_validity
status_for box none = record {
  mailbox = box.name;
  num_messages = none;
  num_unseen = none;
  uid_next = 0;
  uid_validity = 0;
}
status_for box (some options) = record {
  mailbox = box.name;
  num_messages = if options.num_messages then some (uint32 box.exists_count) else none;
  num_unseen = if options.num_unseen then some (uint32 box.unseen_count) else none;
  uid_next = if options.uid_next then uint32 box.local_uid_next else 0;
  uid_validity = if options.uid_validity then uid_validity box else 0;
}

unfoldable pub attributes_for : Mailbox → List Text
attributes_for box =
    let special : List Text = elim box.special_use [
      | none ↦ []
      | some use' ↦ if is_empty use' then [] else use' ∷ []
    ] in
    special ++ (codes "\\HasNoChildren" ∷ [])

pub record ListData : Type 0 where
  pub mailbox : Text
  pub delim : ℕ
  pub attrs : List Text
  pub status : Option StatusData

-- What List writes of one mailbox. `options` is ReturnStatus, where the client asks for it.
unfoldable pub list_data : Option StatusOptions → Mailbox → ListData
unfolding status_for attributes_for
list_data options box = record {
  mailbox = box.name;
  delim = b'/';
  attrs = attributes_for box;
  status = elim options [ none ↦ none | some o ↦ some (status_for box (some o)) ];
}

module _ {W : Type 0} (backend : Backend W) where
  unfoldable pub status : Text → Option StatusOptions → Session → W → Reply StatusData × W
  unfolding require_auth internal_error status_for
  status name options s w = elim (require_auth s) [
    | refused r ↦ (refused r, w)
    | fails e ↦ (fails e, w)
    | done account ↦
        let boxes = backend.list_mailboxes account w in
        elim boxes.0 [
          | err e ↦ (refused (internal_error e), boxes.1)
          | ok bs ↦ elim (head_of (select (λ b. Text.equal_fold b.name name) bs)) [
            | none ↦ (
              refused
                  (record { is_bad = false; code = non_existent; text = codes "no such mailbox" }),
              boxes.1,
            )
            | some b ↦ (done (status_for b options), boxes.1)
          ]
        ]
  ]

  -- `write` is ListWriter.WriteList.
  module _ (write : ListData → W → Option Error × W) where
    unfoldable pub write_list : List ListData → W → Option Error × W
    write_list [] w = (none, w)
    write_list (d ∷ ds) w =
        let r = write d w in
        let rest = write_list ds r.1 in elim r.0 [ some e ↦ (some e, r.1) | none ↦ rest ]

    unfoldable pub list : Text → List Text → Option StatusOptions → Session → W → Reply Unit × W
    unfolding require_auth internal_error list_data write_list matches_any
    list ref patterns options s w = elim (require_auth s) [
      | refused r ↦ (refused r, w)
      | fails e ↦ (fails e, w)
      | done account ↦
          let boxes = backend.list_mailboxes account w in
          elim boxes.0 [
            | err e ↦ (refused (internal_error e), boxes.1)
            | ok bs ↦
                let r =
                  write_list
                    (map (list_data options) (select (λ b. matches_any b.name ref patterns) bs))
                    boxes.1 in
                elim r.0 [ some e ↦ (fails e, r.1) | none ↦ (done tt, r.1) ]
          ]
    ]
