-- ===== src/Syncer/Mirror.antt =====
-- internal/syncer/mailbox.go: syncMailbox, the work on one mailbox. The metadata pass stands in one
-- piece between two stretches of the body pass's schedule; what else happens to the tables is in
-- the schedule's own moves. A wait that has not ended is no result.
pub mod Rows
mod Tests
use imapped.Base.{
  ℕ, zero, suc, Bool, true, false, ◌&&◌, not, Option, none, some, List, [], ◌∷◌, ◌==◌,
  if◌then◌else◌, is_empty,
}
use imapped.Base.Text
use imapped.Base.Text.{Text, codes}
use imapped.Store.Tables.{Mailbox, Database}
use imapped.Store.Mailboxes.{
  UpsertMailboxParams, upsert_mailbox, get_mailbox, reset_for_uid_validity_change,
  refresh_mailbox_counts,
}
use imapped.Upstream.Errors.{Error, leaf, plain, Result, ok, err}
use imapped.Upstream.Session.{SelectedMailbox}
use imapped.Syncer.NumSets.{NumSets}
use imapped.Syncer.Priority.{MailboxInfo, special_use}
use imapped.Syncer.Headers.{Encoding}
use imapped.Syncer.Metadata.{Remote, Settings, Pass, metadata_pass}
use imapped.Syncer.Claims.{ClaimTable}
use imapped.Syncer.Account.{MailboxCounts}
use imapped.Syncer.Pool.{
  BodyPass, Producer, claiming, waiting, sending, stopped, Worker, opening, receiving, fetching,
  draining, ended, Pool, Move, metadata_ends, elsewhere, run, start, verdict,
}

-- The fields of the row that LIST reports. Its delimiter is one character, or NUL for none.
unfoldable pub mailbox_params : ℕ → MailboxInfo → UpsertMailboxParams
mailbox_params account_id box = record {
  account_id = account_id;
  name = box.name;
  canonical_name = Text.to_lower box.name;
  delimiter = if box.delimiter == 0 then none else some (box.delimiter ∷ []);
  attributes = box.attributes;
  special_use =
      if is_empty (special_use box.attributes) then none else some (special_use box.attributes);
}

abbrev pub missing : Error
missing = leaf plain (codes "not found")

-- What the work on a mailbox uses: the client of the account, with its SELECT and the answers to the
-- metadata pass, the errors of the database, and the body pass over a mailbox's row.
pub record Mirror (C W : Type 0) : Type 1 where
  pub account_id : ℕ
  pub encoding : Encoding
  pub settings : Settings
  pub now : ℕ
  pub has_cond_store : Bool
  pub sets : NumSets
  pub remote : Remote sets.Set W
  pub store_err : W → Option Error × W
  pub select : Text → W → Result SelectedMailbox × W
  pub body_pass : Mailbox → BodyPass C W

-- The tables and the claims of the engine.
pub record Held : Type 0 where
  pub db : Database
  pub claims : ClaimTable

abbrev all_ended : {C : Type 0} → List (Worker C) → Bool
all_ended [] = true
all_ended (ended ∷ ws) = all_ended ws
all_ended (opening ∷ ws) = false
all_ended (receiving s ∷ ws) = false
all_ended (fetching s b left attempt ∷ ws) = false
all_ended (draining s e ∷ ws) = false

abbrev is_stopped : Producer → Bool
is_stopped (stopped e) = true
is_stopped (claiming finished) = false
is_stopped waiting = false
is_stopped (sending finished bs) = false

module _ {C W : Type 0} (mirror : Mirror C W) where
  open mirror use {
    account_id, encoding, settings, now, has_cond_store, sets, remote, store_err, select, body_pass,
  }

  abbrev pub Outcome : Type 0
  Outcome = Option Error × MailboxCounts × Held × W

  abbrev nothing : MailboxCounts
  nothing = record { messages_new = 0; bodies_fetched = 0; bytes_fetched = 0 }

  -- Whether the server has renumbered the mailbox since the row was written.
  unfoldable pub is_renumbered : Mailbox → SelectedMailbox → Bool
  is_renumbered mailbox selected = elim mailbox.uid_validity [
    | none ↦ false
    | some v ↦ not (v == selected.uid_validity)
  ]

  -- The row that the passes work on, behind the reset for new UIDs where one is due.
  unfoldable pub current_row :
      Mailbox → SelectedMailbox → Database → W → Result Mailbox × Database × W
  unfolding is_renumbered
  current_row mailbox selected db w =
      if is_renumbered mailbox selected
      then (let reset = store_err w in
          elim reset.0 [
            | some e ↦ (err e, db, reset.1)
            | none ↦
                let db' = reset_for_uid_validity_change mailbox.id selected.uid_validity db in
                let got = store_err reset.1 in
                elim got.0 [
                  | some e ↦ (err e, db', got.1)
                  | none ↦ elim (get_mailbox mailbox.id db') [
                    | none ↦ (err missing, db', got.1)
                    | some m ↦ (ok m, db', got.1)
                  ]
                ]
          ])
      else (ok mailbox, db, w)

  -- The two passes over a row.
  unfoldable pub run_passes :
      List (Move W)
      → List (Move W)
      → Mailbox
      → SelectedMailbox
      → Held
      → W
      → Result Unit × ℕ × Pool C W
  run_passes early late mailbox selected held w =
      let pass = body_pass mailbox in
      let p =
        run pass early
          (start pass (record { db = held.db; claims = held.claims; fetched = 0; bytes = 0 }) w) in
      let m =
        metadata_pass sets remote encoding settings now has_cond_store account_id mailbox selected
          p.batch.db p.world in
      (m.0, m.1.new_messages, run pass (elsewhere m.1.db m.1.world ∷ metadata_ends ∷ late) p)

  -- Behind the wait: the metadata pass's error comes first, and the counts are refreshed behind two
  -- passes that ended well; the error of that statement is only logged.
  unfoldable pub finish : Mailbox → Result Unit → Option Error → MailboxCounts → Held → W → Outcome
  finish mailbox (err e) body_err counts held w = (some e, counts, held, w)
  finish mailbox (ok u) (some e) counts held w = (some e, counts, held, w)
  finish mailbox (ok u) none counts held w =
      let r = store_err w in
      elim r.0 [
        | some e ↦ (none, counts, held, r.1)
        | none ↦ (none, counts, record held { db = refresh_mailbox_counts mailbox.id held.db }, r.1)
      ]

  unfoldable pub mirror_row :
      List (Move W) → List (Move W) → Mailbox → SelectedMailbox → Held → W → Option Outcome
  unfolding run_passes finish
  mirror_row early late mailbox selected held w =
      let r = run_passes early late mailbox selected held w in
      let p = r.2 in
      if is_stopped p.producer && all_ended p.workers
      then some (
          finish mailbox r.0 (verdict (body_pass mailbox) p)
            (record {
              messages_new = r.1;
              bodies_fetched = p.batch.fetched;
              bytes_fetched = p.batch.bytes;
            })
            (record { db = p.batch.db; claims = p.batch.claims }) p.world)
      else none

  unfoldable pub mirror_selected :
      List (Move W) → List (Move W) → Mailbox → SelectedMailbox → Held → W → Option Outcome
  unfolding current_row mirror_row
  mirror_selected early late mailbox selected held w =
      let r = current_row mailbox selected held.db w in
      elim r.0 [
        | err e ↦ some (some e, nothing, record held { db = r.1 }, r.2)
        | ok row ↦ mirror_row early late row selected (record held { db = r.1 }) r.2
      ]

  unfoldable pub sync_mailbox :
      List (Move W) → List (Move W) → MailboxInfo → Held → W → Option Outcome
  unfolding mailbox_params mirror_selected
  sync_mailbox early late box held w =
      let asked = store_err w in
      elim asked.0 [
        | some e ↦ some (some e, nothing, held, asked.1)
        | none ↦
            let up = upsert_mailbox (mailbox_params account_id box) held.db in
            let listed : Held = record held { db = up.1 } in
            let r = select box.name asked.1 in
            elim r.0 [
              | err e ↦ some (some e, nothing, listed, r.1)
              | ok selected ↦ mirror_selected early late up.0 selected listed r.1
            ]
      ]
