-- ===== src/Upstream/Session.antt =====
-- internal/upstream/session.go: the handle that reconnects by itself. The connection, the server,
-- the context and the wait between attempts are parameters; the mutex makes each method's use of
-- the fields one step.
pub mod Mailbox
pub mod Attempts
use imapped.Base.{
  ℕ, zero, suc, ◌+◌, ◌-◌, Bool, true, false, ◌||◌, Option, none, some, List, [], ◌∷◌, ◌++◌,
  is_empty, if◌then◌else◌,
}
use imapped.Base.Int64
use imapped.Base.Text
use imapped.Base.Text.{Text, codes}
use imapped.Upstream.Errors.{
  Error, Severity, retryable, fatal_account, fatal_mailbox, Result, ok, err, wrap, severity_of,
  has_cause, is_canceled, is_poisoned, is_hangup, is_deadline, is_net,
}

-- What SELECT reports (upstream.SelectedMailbox).
pub record SelectedMailbox : Type 0 where
  pub name : Text
  pub num_messages : ℕ
  pub uid_validity : ℕ
  pub uid_next : ℕ
  pub highest_mod_seq : ℕ
  pub read_only : Bool

-- The connector and its clients. `C` is a client, `W` the state of everything outside the session.
pub record Server (C W : Type 0) : Type 0 where
  pub ctx_err : W → Option Error
  pub pause : ℕ → W → Bool × W
  pub connect : W → Result C × W
  pub select : C → Text → Bool → W → Result SelectedMailbox × W
  pub close : C → W → W
  pub poisoned : C → W → Bool

pub record Session (C : Type 0) : Type 0 where
  pub client : Option C
  pub selected : Text
  pub read_only : Bool

abbrev pub is_fatal_account : Severity → Bool
is_fatal_account fatal_account = true
is_fatal_account retryable = false
is_fatal_account fatal_mailbox = false

abbrev pub is_fatal : Severity → Bool
is_fatal fatal_account = true
is_fatal fatal_mailbox = true
is_fatal retryable = false

unfoldable pub recoverable : Error → Bool
recoverable e =
    if has_cause is_canceled e || is_fatal (severity_of e)
    then false
    else has_cause is_poisoned e
      || has_cause is_hangup e
      || has_cause is_deadline e
      || has_cause is_net e

-- One attempt of Do: the result, or the error after which another attempt may follow.
pub data Round (C W A : Type 0) : Type 0 where
  returns : Result A → Session C → W → Round C W A
  retries : Error → Session C → W → Round C W A

module _ {C W : Type 0} (server : Server C W) where
  open server use {ctx_err, pause, connect, select, close, poisoned}

  -- A session and the outside, after a method that returns an `A` or fails.
  abbrev pub Out : Type 0 → Type 0
  Out A = Result A × Session C × W

  unfoldable pub discard : Session C → W → Session C × W
  discard s w = elim s.client [ none ↦ (s, w) | some c ↦ (record s { client = none }, close c w) ]

  -- Restore the mailbox that was open, on a new client.
  unfoldable pub reopen : C → Session C → W → Out C
  reopen c s w =
      if is_empty s.selected
      then (ok c, record s { client = some c }, w)
      else let (r, w') = select c s.selected s.read_only w in
        elim r [
          | ok data' ↦ (ok c, record s { client = some c }, w')
          | err e ↦ (
            err (wrap (codes "reopening " ++ (s.selected ++ codes " after reconnecting: ")) e []),
            s,
            close c w',
          )
        ]

  unfoldable pub dial : Session C → W → Out C
  unfolding reopen
  dial s w = let (r, w') = connect w in elim r [ ok c ↦ reopen c s w' | err e ↦ (err e, s, w') ]

  unfoldable pub ensure_connected : Session C → W → Out C
  unfolding dial discard
  ensure_connected s w = elim s.client [
    | none ↦ dial s w
    | some c ↦ if poisoned c w then (let (s', w') = discard s w in dial s' w') else (ok c, s, w)
  ]

  -- A failure that a fresh connection could mend drops the client.
  unfoldable pub settle : {A : Type 0} → Session C → Result A × W → Round C W A
  settle s (ok a, w) = returns (ok a) s w
  settle s (err e, w) =
      if recoverable e then (let (s', w') = discard s w in retries e s' w') else returns (err e) s w

  module _ {A : Type 0} (fn : C → W → Result A × W) where
    unfoldable pub run_command : C → Session C → W → Round C W A
    unfolding settle
    run_command c s w = settle s (fn c w)

    unfoldable pub connected : Out C → Round C W A
    unfolding run_command
    connected (ok c, s, w) = run_command c s w
    connected (err e, s, w) =
        if is_fatal_account (severity_of e) then returns (err e) s w else retries e s w

    unfoldable pub round : Session C → W → Round C W A
    unfolding connected
    round s w = elim (ctx_err w) [
      | some e ↦ returns (err e) s w
      | none ↦ connected (ensure_connected s w)
    ]

    unfoldable pub failed_after : Text → ℕ → Error → Error
    failed_after op attempts e =
        wrap (op ++ (codes " failed after " ++ (Text.decimal attempts ++ codes " attempts: "))) e []

    -- The wait stands behind every failed attempt, the last one too.
    unfoldable pub do_loop : Text → ℕ → ℕ → ℕ → Session C → W → Out A
    unfolding failed_after
    do_loop op n zero attempt s w = elim (round s w) [
      | returns r s' w' ↦ (r, s', w')
      | retries e s' w' ↦ let (go, w'') = pause attempt w' in (err (failed_after op n e), s', w'')
    ]
    do_loop op n (suc left) attempt s w = elim (round s w) [
      | returns r s' w' ↦ (r, s', w')
      | retries e s' w' ↦
          let (go, w'') = pause attempt w' in
          elim go [
            | true ↦ do_loop op n left (attempt + 1) s' w''
            | false ↦ (err (failed_after op n e), s', w'')
          ]
    ]

    -- `attempts` is the setting RetryMaxAttempts.
    unfoldable pub do_command : ℕ → Text → Session C → W → Out A
    unfolding do_loop round
    do_command attempts op s w =
        let n = if Int64.lt attempts 1 then 1 else attempts in do_loop op n (n - 1) 1 s w

  -- The session remembers what it opened.
  unfoldable pub note_selected : Text → Bool → Out SelectedMailbox → Out SelectedMailbox
  note_selected name read_only (ok d, s, w) =
      (ok d, record s { selected = name; read_only = read_only }, w)
  note_selected name read_only (err e, s, w) = (err e, s, w)

  unfoldable pub select_mailbox : ℕ → Text → Bool → Session C → W → Out SelectedMailbox
  unfolding do_command note_selected
  select_mailbox attempts name read_only s w =
      note_selected name read_only
        (do_command (λ c. select c name read_only) attempts (codes "select " ++ name) s w)

  unfoldable pub close_session : Session C → W → Session C × W
  unfolding discard
  close_session s w = discard s w
