-- ===== src/Syncer/Bodies.antt =====
-- internal/syncer/mailbox.go: fetchBatch and fetchBatchSession. The blob store, the parser of
-- internal/mailstore and the errors of the database are parameters, as is the connection; the
-- progress that the interface shows is left out.
pub mod Frames
pub mod Retries
mod Tests
use imapped.Base.{ℕ, Option, none, some, List, [], ◌∷◌, if◌then◌else◌}
use imapped.Base.Int64
use imapped.Base.Text.{Text, codes}
use imapped.Store.Tables.{Database, Message}
use imapped.Store.Bodies.{
  attach_body, mark_body_failed, mark_body_too_large, message_id_for_mailbox_message,
}
use imapped.Upstream.Errors.{
  Error, leaf, plain, error_text, has_cause, is_too_large, Result, ok, err,
}
use imapped.Upstream.Session.{Server, Session, Out, do_command}
use imapped.Upstream.Bodies.{Literal, Line, Left, fetch_bodies}
use imapped.Blob.Keys.{Info}
use imapped.Syncer.NumSets.{NumSets}
use imapped.Syncer.Planner.{SizedUid}
use imapped.Syncer.Planner.Ranges.{uid_set}
use imapped.Syncer.Claims.{PendingBody, ClaimTable, take_claim}

-- `store_err` is asked before each statement; the parser writes to the table messages.
pub record Storage (W : Type 0) : Type 0 where
  pub store_err : W → Option Error × W
  pub put : List ℕ → W → Result Info × W
  pub ingest : ℕ → List ℕ → List Message → W → Option Error × List Message × W

-- What the workers share: the tables, the claims of the engine, and the two totals of a pass.
pub record Batch : Type 0 where
  pub db : Database
  pub claims : ClaimTable
  pub fetched : ℕ
  pub bytes : ℕ

abbrev pub not_found : Error
not_found = leaf plain (codes "not found")

module _ {W : Type 0} where
  unfoldable pub and_then : Left Batch W → (Batch → W → Left Batch W) → Left Batch W
  and_then (none, s, w) k = k s w
  and_then (some e, s, w) k = (some e, s, w)

module _ {W : Type 0} (storage : Storage W) where
  unfoldable pub statement : (Database → Option Database) → Batch → W → Left Batch W
  statement run s w =
      let r = storage.store_err w in
      elim r.0 [
        | some e ↦ (some e, s, r.1)
        | none ↦ elim (run s.db) [
          | none ↦ (some not_found, s, r.1)
          | some db ↦ (none, record s { db = db }, r.1)
        ]
      ]

  unfoldable pub mark_failed : ℕ → PendingBody → Error → Batch → W → Left Batch W
  unfolding statement
  mark_failed max_attempts claim e =
      statement
        λ db. some (mark_body_failed claim.mailbox_message_id (error_text e) max_attempts db)

  unfoldable pub mark_too_large : PendingBody → Batch → W → Left Batch W
  unfolding statement
  mark_too_large claim = statement λ db. some (mark_body_too_large claim.mailbox_message_id db)

  -- The parser's error is only logged; the body counts either way.
  unfoldable pub parse_and_count : ℕ → List ℕ → ℕ → Batch → W → Left Batch W
  parse_and_count message_id raw size s w =
      let r = storage.ingest message_id raw s.db.messages w in
      (
        none,
        record s {
          db = record s.db { messages = r.1 };
          fetched = Int64.add s.fetched 1;
          bytes = Int64.add s.bytes size;
        },
        r.2,
      )

  -- The query for the message id, and what follows when it answers.
  unfoldable pub parse_stored : PendingBody → List ℕ → ℕ → Batch → W → Left Batch W
  unfolding parse_and_count
  parse_stored claim raw size s w =
      let r = storage.store_err w in
      elim r.0 [
        | some e ↦ (some e, s, r.1)
        | none ↦ elim (message_id_for_mailbox_message claim.mailbox_message_id s.db) [
          | none ↦ (some not_found, s, r.1)
          | some message_id ↦ parse_and_count message_id raw size s r.1
        ]
      ]

  unfoldable pub store_body : ℕ → PendingBody → List ℕ → Batch → W → Left Batch W
  unfolding statement mark_failed parse_stored and_then
  store_body max_attempts claim raw s w =
      let put = storage.put raw w in
      elim put.0 [
        | err e ↦ mark_failed max_attempts claim e s put.1
        | ok info ↦
            and_then
              (statement (attach_body claim.mailbox_message_id info.sha256 info.size info.key) s
                put.1)
              (λ t v. parse_stored claim raw info.size t v)
      ]

  -- The handler for one body. An unclaimed body is drained.
  unfoldable pub handle_body : ℕ → ℕ → ℕ → Literal → Batch → W → Left Batch W
  unfolding store_body mark_failed
  handle_body max_attempts mailbox_id uid body s w =
      let taken = take_claim mailbox_id uid s.claims in
      elim taken.0 [
        | none ↦ (none, s, w)
        | some claim ↦
            let t : Batch = record s { claims = taken.1 } in
            elim body.content [
              | err e ↦ mark_failed max_attempts claim e t w
              | ok raw ↦ store_body max_attempts claim raw t w
            ]
      ]

  -- Behind an oversized message: the first error ends the loop.
  unfoldable pub park : ℕ → List SizedUid → Batch → W → Left Batch W
  unfolding mark_too_large and_then
  park mailbox_id [] s w = (none, s, w)
  park mailbox_id (msg ∷ batch) s w =
      let taken = take_claim mailbox_id msg.uid s.claims in
      elim taken.0 [
        | none ↦ park mailbox_id batch s w
        | some claim ↦
            and_then (mark_too_large claim (record s { claims = taken.1 }) w)
              (λ t v. park mailbox_id batch t v)
      ]

  -- Behind any other error; the errors of the statements are ignored.
  unfoldable pub release : ℕ → ℕ → Error → List SizedUid → Batch → W → Batch × W
  unfolding mark_failed
  release max_attempts mailbox_id e [] s w = (s, w)
  release max_attempts mailbox_id e (msg ∷ batch) s w =
      let taken = take_claim mailbox_id msg.uid s.claims in
      elim taken.0 [
        | none ↦ release max_attempts mailbox_id e batch s w
        | some claim ↦
            let r = mark_failed max_attempts claim e (record s { claims = taken.1 }) w in
            release max_attempts mailbox_id e batch r.1 r.2
      ]

  unfoldable pub after_fetch : ℕ → ℕ → List SizedUid → Left Batch W → Left Batch W
  unfolding park release
  after_fetch max_attempts mailbox_id batch (none, s, w) = (none, s, w)
  after_fetch max_attempts mailbox_id batch (some e, s, w) =
      if has_cause is_too_large e
      then park mailbox_id batch s w
      else let (t, v) = release max_attempts mailbox_id e batch s w in (some e, t, v)

  module _ (sets : NumSets) (line : Line sets.Set W) where
    unfoldable pub fetch_batch : ℕ → ℕ → ℕ → List SizedUid → Batch → W → Left Batch W
    unfolding after_fetch
    fetch_batch max_size max_attempts mailbox_id batch s w =
        after_fetch max_attempts mailbox_id batch (
          fetch_bodies max_size (handle_body max_attempts mailbox_id) line (uid_set sets batch) s w)

-- The session's server, where a batch carries its state along.
unfoldable pub carry : {C S W : Type 0} → Server C W → Server C (S × W)
carry server = record {
  ctx_err = λ x. server.ctx_err x.1;
  pause = λ n x. let r = server.pause n x.1 in (r.0, (x.0, r.1));
  connect = λ x. let r = server.connect x.1 in (r.0, (x.0, r.1));
  select = λ c name read_only x. let r = server.select c name read_only x.1 in (r.0, (x.0, r.1));
  close = λ c x. (x.0, server.close c x.1);
  poisoned = λ c x. server.poisoned c x.1;
}

-- An error result with nothing beside it.
abbrev result_of : Option Error → Result Unit
result_of none = ok tt
result_of (some e) = err e

module _ {C W : Type 0} (server : Server C W) (storage : Storage W) (sets : NumSets)
    (lines : C → Line sets.Set W) where
  -- The command of the session, on a connection.
  unfoldable pub fetch_command :
      ℕ → ℕ → ℕ → List SizedUid → C → Batch × W → Result Unit × (Batch × W)
  fetch_command max_size max_attempts mailbox_id batch c x =
      let r = fetch_batch storage sets (lines c) max_size max_attempts mailbox_id batch x.0 x.1 in
      (result_of r.0, (r.1, r.2))

  unfoldable pub fetch_batch_session :
      ℕ → ℕ → ℕ → ℕ → List SizedUid → Session C → Batch × W → Result Unit × Session C × (Batch × W)
  unfolding carry fetch_command
  fetch_batch_session attempts max_size max_attempts mailbox_id batch =
      do_command (carry server) (fetch_command max_size max_attempts mailbox_id batch) attempts
        (codes "fetch bodies")
