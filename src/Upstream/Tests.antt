-- ===== src/Upstream/Tests.antt =====
-- Instances of the theorems about errors, retries and sessions.
use imapped.Base.{
  ℕ, suc, ◌+◌, ◌≤◌, ◌≡◌, refl, Bool, true, false, Option, none, some, [], arith, max, inl, inr, ◌⊎◌,
  ltb, if◌then◌else◌, Bool-cases,
}
use imapped.Base.Text
use imapped.Base.Text.{Text, codes}
use imapped.Upstream.Errors.{
  Error, leaf, eof, imap, non_existent, Result, ok, err, severity_of, has_cause,
}
use imapped.Upstream.Retry.{World, retry}
use imapped.Upstream.Retry.Calls.{Outcome, retry-Outcome}
use imapped.Upstream.Session.{Server, Session, SelectedMailbox, do_command, recoverable}
use imapped.Upstream.Session.Mailbox.{do_command-in_mailbox}
use imapped.Upstream.Session.Attempts.{IsQuiet, sent-do_command}

abbrev dropped : Error
dropped = leaf eof (codes "EOF")

-- A call that fails twice and then succeeds; the world counts the calls.
abbrev flaky : World ℕ
flaky = record {
  ctx_err = λ w. none;
  call = λ w. (if ltb w 2 then some dropped else none, suc w);
  pause = λ n w. (true, w);
}

retry-Outcome_example : Outcome flaky (max 1 5) 0 (retry flaky 5 0)
retry-Outcome_example = retry-Outcome flaky 5 0 (omega arith)

-- A server with one client, whose state is the mailbox that is open and the number of commands.
-- It knows no other mailbox than "INBOX".
abbrev Line : Type 0
Line = Option Text × ℕ

abbrev description : Text → SelectedMailbox
description name = record {
  name = name;
  num_messages = 0;
  uid_validity = 1;
  uid_next = 1;
  highest_mod_seq = 0;
  read_only = false;
}

abbrev no_mailbox : Error
no_mailbox = leaf (imap non_existent (codes "no such mailbox")) (codes "no such mailbox")

abbrev small_server : Server Unit Line
small_server = record {
  ctx_err = λ w. none;
  pause = λ n w. (true, w);
  connect = λ w. (ok tt, (none, w.1));
  select = λ c name ro w.
      if Text.same name (codes "INBOX")
      then (ok (description name), (some name, w.1))
      else (err no_mailbox, (none, w.1));
  close = λ c w. w;
  poisoned = λ c w. false;
}

abbrev open_session : Session Unit
open_session = record { client = some tt; selected = codes "INBOX"; read_only = false }

abbrev Client : Type 0
Client = Unit

abbrev noop : Client → Line → Result ℕ × Line
noop c w = (ok 0, (w.0, suc w.1))

-- The same command, of a client that looks whether a mailbox is open.
abbrev careful : Client → Line → Result ℕ × Line
careful c w = elim w.0 [ none ↦ (err dropped, w) | some name ↦ (ok 0, (w.0, suc w.1)) ]

small_server-opens :
    (c : Unit) (name : Text) (ro : Bool) (w : Line) (d : SelectedMailbox)
    → (Server.select small_server c name ro w).0 ≡ ok d
    → (Server.select small_server c name ro w).1.0 ≡ some name
small_server-opens c name ro w d = elim (Bool-cases (Text.same name (codes "INBOX"))) [
  | inl e ↦ rw e (λ h. refl)
  | inr e ↦ rw e (λ h. cc)
]

agree :
    (c : Client) (w : Line)
    → (codes "INBOX" ≡ []) ⊎ (w.0 ≡ some (codes "INBOX"))
    → noop c w ≡ careful c w
agree c w (inl e) = cc
agree c w (inr e) = rw e refl

do_command-in_mailbox_example :
    do_command small_server noop 3 (codes "noop") open_session (some (codes "INBOX"), 0)
    ≡ do_command small_server careful 3 (codes "noop") open_session (some (codes "INBOX"), 0)
do_command-in_mailbox_example =
    do_command-in_mailbox small_server (λ c w. w.0) small_server-opens noop careful 3 (codes "noop")
      open_session (some (codes "INBOX"), 0) agree (λ c e h. inr refl)

small_server-IsQuiet : IsQuiet small_server (λ w. w.1)
small_server-IsQuiet = record {
  in_pause = λ n w. refl;
  in_connect = λ w. refl;
  in_select = λ c name ro w. ground arith;
  in_close = λ c w. refl;
}

sent-do_command_example :
    (do_command small_server noop 3 (codes "noop") open_session (some (codes "INBOX"), 0)).2.1
    ≤ 0 + max 1 3
sent-do_command_example =
    sent-do_command small_server (λ w. w.1) small_server-IsQuiet noop (λ c w. omega arith) 3
      (codes "noop") open_session (some (codes "INBOX"), 0) (omega arith)

-- The server refuses a mailbox that it does not know.
abbrev unopened : Line
unopened = (none, 0)

refused_at :
    Server.select small_server tt (codes "Spam") false (some (codes "INBOX"), 0)
    ≡ (err no_mailbox, (none, 0))
unfolding Text.same
refused_at = refl

refused_for_good : recoverable no_mailbox ≡ false
unfolding recoverable severity_of has_cause
refused_for_good = refl
