-- ===== src/Imapsrv/Session.antt =====
-- internal/imapsrv/session.go, fetch.go and search.go: the state of one client connection and its
-- commands. The store's queries are an interface; the mutex makes each command one step.
pub mod Numbers
use imapped.Base.{
  ℕ, zero, suc, ◌+◌, Bool, true, false, ◌&&◌, ◌||◌, not, Option, none, some, List, [], ◌∷◌, ◌++◌,
  map, ◌==◌, length, if◌then◌else◌, select,
}
use imapped.Base.Text
use imapped.Base.Text.{Text, codes}
use imapped.Store.Sql.{head_of}
use imapped.Store.Tables.{Mailbox}
use imapped.Store.Mutations.{FlagPayload}
use imapped.Upstream.Errors.{
  ResponseCode, no_code, non_existent, server_bug, Error, error_text, Result, ok, err,
}
use imapped.Syncer.NumSets.{NumSets}
use imapped.Syncer.Planner.Ranges.{add_nums}
use imapped.Imapsrv.Flags.{StoreFlags, apply_flag_change}
use imapped.Imapsrv.Sections.{Summary}
use imapped.Imapsrv.Search.{Criteria, matches_criteria}

-- An *imap.Error of type NO, or of type BAD.
pub record Refusal : Type 0 where
  pub is_bad : Bool
  pub code : ResponseCode
  pub text : Text

-- `fails` is an error that is not an *imap.Error.
pub data Reply (A : Type 0) : Type 0 where
  done : A → Reply A
  refused : Refusal → Reply A
  fails : Error → Reply A

-- What the session calls of the store, on the state `W` of everything outside.
pub record Backend (W : Type 0) : Type 0 where
  pub list_mailboxes : ℕ → W → Result (List Mailbox) × W
  pub list_messages_by_uid : ℕ → W → Result (List Summary) × W
  pub set_flags : ℕ → List Text → W → Option Error × W
  pub enqueue_store_flags : ℕ → ℕ → FlagPayload → W → Option Error × W

-- The user and the account are ids.
pub record Session : Type 0 where
  pub user : Option ℕ
  pub account : Option ℕ
  pub mailbox : Option Mailbox
  pub read_only : Bool
  pub snapshot : List Summary

abbrev pub no_reply : Text → Refusal
no_reply text = record { is_bad = false; code = no_code; text = text }

unfoldable pub internal_error : Error → Refusal
internal_error e = record { is_bad = false; code = server_bug; text = error_text e }

-- The account and the mailbox that a command may use.
unfoldable pub require_auth : Session → Reply ℕ
require_auth s = elim s.user [
  | none ↦ refused (no_reply (codes "not authenticated"))
  | some u ↦ elim s.account [
    | none ↦ refused (no_reply (codes "not authenticated"))
    | some a ↦ done a
  ]
]

unfoldable pub require_mailbox : Session → Reply (ℕ × Mailbox)
unfolding require_auth
require_mailbox s = elim (require_auth s) [
  | refused r ↦ refused r
  | fails e ↦ fails e
  | done a ↦ elim s.mailbox [
    | none ↦
        refused (record { is_bad = true; code = no_code; text = codes "no mailbox is selected" })
    | some m ↦ done (a, m)
  ]
]

unfoldable pub unselect : Session → Session
unselect s = record s { mailbox = none; snapshot = [] }

-- The messages with their sequence numbers, from `n` on.
unfoldable pub number_from : ℕ → List Summary → List (ℕ × Summary)
number_from n [] = []
number_from n (m ∷ ms) = (n, m) ∷ number_from (suc n) ms

pub data NumSet (S : Type 0) : Type 0 where
  seq_set uid_set : S → NumSet S

module _ (sets : NumSets) where
  unfoldable pub resolve : NumSet sets.Set → Session → List (ℕ × Summary)
  unfolding number_from
  resolve (seq_set set) s = select (λ x. sets.contains set x.0) (number_from 1 s.snapshot)
  resolve (uid_set set) s = select (λ x. sets.contains set x.1.local_uid) (number_from 1 s.snapshot)

  unfoldable pub found : Criteria sets.Set → Session → List (ℕ × Summary)
  unfolding number_from
  found c s = select (λ x. matches_criteria sets x.1 x.0 c) (number_from 1 s.snapshot)

  -- The set that Search returns, of UIDs or of sequence numbers.
  unfoldable pub answer : Bool → Criteria sets.Set → Session → NumSet sets.Set
  unfolding found add_nums
  answer by_uid c s =
      if by_uid
      then uid_set (add_nums sets sets.empty (map (λ y. y.1.local_uid) (found c s)))
      else seq_set (add_nums sets sets.empty (map (λ y. y.0) (found c s)))

  unfoldable pub search : Bool → Criteria sets.Set → Session → Reply (NumSet sets.Set)
  unfolding require_mailbox answer
  search by_uid c s = elim (require_mailbox s) [
    | refused r ↦ refused r
    | fails e ↦ fails e
    | done x ↦ done (answer by_uid c s)
  ]

module _ {W : Type 0} (backend : Backend W) where
  unfoldable pub refresh_snapshot : ℕ → Session → W → Option Error × (Session × W)
  refresh_snapshot mailbox_id s w =
      let r = backend.list_messages_by_uid mailbox_id w in
      elim r.0 [
        | ok messages ↦ (none, (record s { snapshot = messages }, r.1))
        | err e ↦ (some e, (s, r.1))
      ]

  -- What SELECT reports, less the constant flags and the UIDVALIDITY: the number of messages and
  -- the next UID.
  unfoldable pub select_mailbox : Text → Bool → Session → W → Reply (ℕ × ℕ) × (Session × W)
  unfolding require_auth refresh_snapshot internal_error
  select_mailbox name read_only s w = elim (require_auth s) [
    | refused r ↦ (refused r, (s, w))
    | fails e ↦ (fails e, (s, w))
    | done account ↦
        let boxes = backend.list_mailboxes account w in
        elim boxes.0 [
          | err e ↦ (refused (internal_error e), (s, boxes.1))
          | ok bs ↦ elim (head_of (select (λ b. Text.equal_fold b.name name) bs)) [
            | none ↦ (
              refused
                  (record { is_bad = false; code = non_existent; text = codes "no such mailbox" }),
              (s, boxes.1),
            )
            | some b ↦
                let r =
                  refresh_snapshot b.id (record s { mailbox = some b; read_only = read_only })
                    boxes.1 in
                elim r.0 [
                  | some e ↦ (refused (internal_error e), r.1)
                  | none ↦ (done (length r.1.0.snapshot, b.local_uid_next), r.1)
                ]
          ]
        ]
  ]

  -- The number of messages, when it is reported to the client.
  unfoldable pub poll : Session → W → Reply (Option ℕ) × (Session × W)
  unfolding refresh_snapshot internal_error
  poll s w = elim s.mailbox [
    | none ↦ (done none, (s, w))
    | some b ↦
        let r = refresh_snapshot b.id s w in
        elim r.0 [
          | some e ↦ (refused (internal_error e), r.1)
          | none ↦
              let n = length r.1.0.snapshot in
              (done (if n == length s.snapshot then none else some n), r.1)
        ]
  ]

  -- The loop of Store over the messages: the answers written, and the first error.
  unfoldable pub store_each :
      ℕ → Mailbox → StoreFlags → List (ℕ × Summary) → W → Option Error × (List (ℕ × List Text) × W)
  unfolding apply_flag_change
  store_each account mailbox change [] w = (none, ([], w))
  store_each account mailbox change (x ∷ xs) w =
      let updated = apply_flag_change x.1.flags change in
      let kept = backend.set_flags x.1.mailbox_message_id updated w in
      let queued =
        backend.enqueue_store_flags account mailbox.id
          (record { upstream_uid = x.1.upstream_uid; mailbox = mailbox.name; flags = updated })
          kept.1 in
      let rest = store_each account mailbox change xs queued.1 in
      elim kept.0 [
        | some e ↦ (some e, ([], kept.1))
        | none ↦ elim queued.0 [
          | some e ↦ (some e, ([], queued.1))
          | none ↦
              (rest.0, ((if change.silent then rest.1.0 else (x.0, updated) ∷ rest.1.0), rest.1.1))
        ]
      ]

  unfoldable pub store :
      (sets : NumSets)
      → NumSet sets.Set
      → StoreFlags
      → Session
      → W
      → Reply (List (ℕ × List Text)) × (Session × W)
  unfolding require_mailbox resolve store_each refresh_snapshot internal_error
  store sets set change s w = elim (require_mailbox s) [
    | refused r ↦ (refused r, (s, w))
    | fails e ↦ (fails e, (s, w))
    | done x ↦
        if s.read_only
        then (refused (no_reply (codes "the mailbox is open read-only")), (s, w))
        else let r = store_each x.0 x.1 change (resolve sets set s) w in
          elim r.0 [
            | some e ↦ (refused (internal_error e), (s, r.1.1))
            | none ↦
                let f = refresh_snapshot x.1.id s r.1.1 in
                elim f.0 [ some e ↦ (fails e, f.1) | none ↦ (done r.1.0, f.1) ]
          ]
  ]

unfoldable pub unsupported : Text → Refusal
unsupported command =
    no_reply (
      command
      ++ codes " is not supported: this mailbox mirrors an upstream server and is read-only")
