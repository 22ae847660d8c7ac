-- ===== src/Syncer/Account.antt =====
-- internal/syncer/engine.go: SyncAccount, syncAccountLocked and reconnect. The connection, the
-- tables of accounts and runs, and the work on one mailbox are an interface, `Engine`; the progress
-- that the interface shows and the heartbeat, which can only end the context, are left out. Errors
-- that the code only logs do not appear.
pub mod Coverage
mod Tests
use imapped.Base.{
  ℕ, suc, Bool, true, false, ◌&&◌, ◌||◌, not, Option, none, some, List, [], ◌∷◌, ◌++◌, map, length,
  any, ◌==◌, if◌then◌else◌,
}
use imapped.Base.Int64
use imapped.Base.Text
use imapped.Base.Text.{Text, codes}
use imapped.Upstream.Errors.{
  Error, leaf, plain, wrap, join, severity_of, has_cause, is_canceled, is_deadline, Result, ok, err,
}
use imapped.Upstream.Retry.{World, retry}
use imapped.Upstream.Session.{is_fatal_account}
use imapped.Syncer.Priority.{MailboxInfo, prioritise}

-- What the code reads of store.Account.
pub record Account : Type 0 where
  pub upstream_host : Text
  pub active : Bool

-- syncer.Result. A count of mailboxes stays far below the largest int.
pub record Totals : Type 0 where
  pub mailboxes_synced : ℕ
  pub messages_new : ℕ
  pub bodies_fetched : ℕ
  pub bytes_fetched : ℕ
  pub skipped : Bool

-- syncer.mailboxResult
pub record MailboxCounts : Type 0 where
  pub messages_new : ℕ
  pub bodies_fetched : ℕ
  pub bytes_fetched : ℕ

-- `C` is a connected client, `W` everything outside; `pause` is the wait between the attempts to
-- connect again.
pub record Engine (C W : Type 0) : Type 0 where
  pub ctx_err : W → Option Error
  pub pause : ℕ → W → Bool × W
  pub get_account : W → Result Account × W
  pub credentials : Account → Option Error
  pub connect : Account → W → Result C × W
  pub close : C → W → W
  pub set_capabilities : C → W → W
  pub list_mailboxes : C → W → Result (List MailboxInfo) × W
  pub delete_mailboxes_except : List Text → W → W
  pub sync_mailbox : C → Account → MailboxInfo → W → Option Error × MailboxCounts × W

-- MailboxInfo.Selectable
unfoldable pub selectable : MailboxInfo → Bool
selectable box =
    not (any (λ a. Text.same a (codes "\\Noselect")) box.attributes)
    && not (any (λ a. Text.same a (codes "\\NonExistent")) box.attributes)

abbrev pub nothing : Totals
nothing = record {
  mailboxes_synced = 0;
  messages_new = 0;
  bodies_fetched = 0;
  bytes_fetched = 0;
  skipped = false;
}

unfoldable pub fold_in : MailboxCounts → Totals → Totals
fold_in m r = record r {
  messages_new = Int64.add r.messages_new m.messages_new;
  bodies_fetched = Int64.add r.bodies_fetched m.bodies_fetched;
  bytes_fetched = Int64.add r.bytes_fetched m.bytes_fetched;
}

-- mailboxErrors, rootCauseMailbox and rootCause, which are set together.
pub record Failures : Type 0 where
  pub mailbox_errors : ℕ
  pub mailbox : Text
  pub root_cause : Error

unfoldable pub note_failure : Text → Error → Option Failures → Failures
note_failure name e none = record { mailbox_errors = 1; mailbox = name; root_cause = e }
note_failure name e (some f) = record f { mailbox_errors = suc f.mailbox_errors }

unfoldable pub verdict : ℕ → Totals → Option Failures → Option Error
verdict total r none = none
verdict total r (some f) =
    if r.mailboxes_synced == 0
    then some (
        wrap
          (codes "every mailbox failed to sync ("
            ++ (Text.decimal f.mailbox_errors
                ++ (codes " of "
                    ++ (Text.decimal total
                        ++ (codes "); root cause was " ++ (f.mailbox ++ codes ": "))))))
          f.root_cause [])
    else none

unfoldable pub cannot_continue : Text → Error → Error → Error
cannot_continue name e connect_err =
    join (wrap (name ++ codes " failed (") e (codes "), and reconnecting to continue failed: "))
      connect_err

-- Retry returns no error only behind a call that connected: a context that is done has an error.
abbrev no_client : Error
no_client = leaf plain (codes "no client")

module _ {C W : Type 0} (engine : Engine C W) where
  open engine use {
    ctx_err, pause, get_account, credentials, connect, close, set_capabilities, list_mailboxes,
    delete_mailboxes_except, sync_mailbox,
  }

  -- The world of the retried call, with the variable `replacement`.
  unfoldable pub dialing : Account → World (Option C × W)
  dialing account = record {
    ctx_err = λ x. ctx_err x.1;
    call = λ x.
        let r = connect account x.1 in
        elim r.0 [ ok c ↦ (none, (some c, r.1)) | err e ↦ (some e, (x.0, r.1)) ];
    pause = λ n x. let r = pause n x.1 in (r.0, (x.0, r.1));
  }

  unfoldable pub reconnect : ℕ → Account → C → W → Result C × W
  unfolding dialing
  reconnect attempts account old w =
      let v = close old w in
      elim (credentials account) [
        | some e ↦ (err e, v)
        | none ↦
            let r = retry (dialing account) attempts (none, v) in
            elim r.0 [
              | some e ↦ (err e, r.1.1)
              | none ↦ elim r.1.0 [ some c ↦ (ok c, r.1.1) | none ↦ (err no_client, r.1.1) ]
            ]
      ]

  -- The loop over the mailboxes, with the client in use, the totals and the failures so far.
  unfoldable pub sync_boxes :
      ℕ
      → Account
      → ℕ
      → List MailboxInfo
      → C
      → Totals
      → Option Failures
      → W
      → Option Error × Totals × C × W
  unfolding verdict fold_in note_failure reconnect
  sync_boxes attempts account total [] c r f w = (verdict total r f, r, c, w)
  sync_boxes attempts account total (box ∷ boxes) c r f w = elim (ctx_err w) [
    | some e ↦ (some e, r, c, w)
    | none ↦ elim (selectable box) [
      | false ↦ sync_boxes attempts account total boxes c r f w
      | true ↦
          let s = sync_mailbox c account box w in
          let r' = fold_in s.1 r in
          elim s.0 [
            | none ↦
                sync_boxes attempts account total boxes c
                  (record r' { mailboxes_synced = suc r'.mailboxes_synced }) f s.2
            | some e ↦ elim (is_fatal_account (severity_of e)) [
              | true ↦ (some e, r', c, s.2)
              | false ↦
                  let n = reconnect attempts account c s.2 in
                  elim n.0 [
                    | err x ↦ (some (cannot_continue box.name e x), r', c, n.1)
                    | ok c' ↦
                        sync_boxes attempts account total boxes c' r'
                          (some (note_failure box.name e f)) n.1
                  ]
            ]
          ]
    ]
  ]

  -- Everything behind the connection; the client in use is closed on every path.
  unfoldable pub sync_connected : ℕ → Account → C → W → Option Error × Totals × W
  unfolding sync_boxes
  sync_connected attempts account c w =
      let listed = list_mailboxes c (set_capabilities c w) in
      elim listed.0 [
        | err e ↦ (some e, nothing, close c listed.1)
        | ok found ↦
            let boxes = prioritise found in
            let v = delete_mailboxes_except (map (λ b. Text.to_lower b.name) boxes) listed.1 in
            let r = sync_boxes attempts account (length boxes) boxes c nothing none v in
            (r.0, r.1, close r.2 r.3)
      ]

  unfoldable pub sync_account_locked : ℕ → W → Option Error × Totals × W
  unfolding sync_connected
  sync_account_locked attempts w =
      let got = get_account w in
      elim got.0 [
        | err e ↦ (some e, nothing, got.1)
        | ok account ↦ elim account.active [
          | false ↦ (none, nothing, got.1)
          | true ↦ elim (credentials account) [
            | some e ↦ (some e, nothing, got.1)
            | none ↦
                let dialed = connect account got.1 in
                elim dialed.0 [
                  | err e ↦ (
                    some (
                        wrap (codes "connecting to " ++ (account.upstream_host ++ codes ": ")) e
                          []),
                    nothing,
                    dialed.1,
                  )
                  | ok c ↦ sync_connected attempts account c dialed.1
                ]
          ]
        ]
      ]

-- The account's lock and the rows of its runs.
pub record Runs (W : Type 0) : Type 0 where
  pub try_lock : W → Result Bool × W
  pub release : W → W
  pub start_sync_run : W → Result ℕ × W
  pub finish_sync_run : ℕ → Text → Option Error → W → W
  pub set_account_sync_result : Option Error → Bool → W → W

unfoldable pub run_status : Option Error → Text
run_status none = codes "succeeded"
run_status (some e) =
    if has_cause is_canceled e || has_cause is_deadline e then codes "cancelled" else codes "failed"

abbrev pub auth_failed : Option Error → Bool
auth_failed none = false
auth_failed (some e) = is_fatal_account (severity_of e)

module _ {C W : Type 0} (engine : Engine C W) (runs : Runs W) where
  open runs use {try_lock, release, start_sync_run, finish_sync_run, set_account_sync_result}

  unfoldable pub sync_account : ℕ → ℕ → W → Option Error × Totals × W
  unfolding sync_account_locked run_status
  sync_account attempts account_id w =
      let locked = try_lock w in
      elim locked.0 [
        | err e ↦ (
          some (wrap (codes "locking account " ++ (Text.decimal account_id ++ codes ": ")) e []),
          nothing,
          locked.1,
        )
        | ok false ↦ (none, record nothing { skipped = true }, locked.1)
        | ok true ↦
            let started = start_sync_run locked.1 in
            elim started.0 [
              | err e ↦ (some e, nothing, release started.1)
              | ok run_id ↦
                  let r = sync_account_locked engine attempts started.1 in
                  let v = finish_sync_run run_id (run_status r.0) r.0 r.2 in
                  (r.0, r.1, release (set_account_sync_result r.0 (auth_failed r.0) v))
            ]
      ]
