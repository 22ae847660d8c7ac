-- ===== src/Upstream/Errors.antt =====
-- internal/upstream/retry.go: errors, their severity, and how an error is classified.
pub mod Classify
use imapped.Base.{
  ℕ, ◌≡◌, refl, ◌⊎◌, inl, inr, Bool, true, false, ◌||◌, Option, none, some, List, [], ◌∷◌, ◌++◌,
  if◌then◌else◌,
}
use imapped.Base.Text
use imapped.Base.Text.{Text, codes}

pub data Severity : Type 0 where
  retryable fatal_account fatal_mailbox : Severity

-- The response codes that the code names, and any other.
pub data ResponseCode : Type 0 where
  no_code authentication_failed authorization_failed expired privacy_required : ResponseCode
  non_existent try_create unavailable in_use server_bug cannot limit : ResponseCode
  other_code : Text → ResponseCode

-- What `errors.Is` and `errors.As` find at the bottom of a chain: the sentinels, a value that has
-- the methods of net.Error, and an *imap.Error with its code and text.
pub data Cause : Type 0 where
  canceled deadline_exceeded poisoned eof unexpected_eof net_closed message_too_large : Cause
  network plain : Cause
  imap : ResponseCode → Text → Cause

-- A Go error: a cause with its message, an error wrapped with %w between two texts, two wrapped
-- errors, or an *upstream.Error.
pub data Error : Type 0 where
  leaf : Cause → Text → Error
  wrap : Text → Error → Text → Error
  join : Error → Error → Error
  classified : Severity → ResponseCode → Error → Error

unfoldable pub code_text : ResponseCode → Text
code_text no_code = []
code_text authentication_failed = codes "AUTHENTICATIONFAILED"
code_text authorization_failed = codes "AUTHORIZATIONFAILED"
code_text expired = codes "EXPIRED"
code_text privacy_required = codes "PRIVACYREQUIRED"
code_text non_existent = codes "NONEXISTENT"
code_text try_create = codes "TRYCREATE"
code_text unavailable = codes "UNAVAILABLE"
code_text in_use = codes "INUSE"
code_text server_bug = codes "SERVERBUG"
code_text cannot = codes "CANNOT"
code_text limit = codes "LIMIT"
code_text (other_code t) = t

-- err.Error()
unfoldable pub error_text : Error → Text
unfolding code_text
error_text (leaf c t) = t
error_text (wrap a e b) = a ++ (error_text e ++ b)
error_text (join e f) = error_text e ++ error_text f
error_text (classified s no_code e) = error_text e
error_text (classified s code e) = error_text e ++ (codes " [" ++ (code_text code ++ codes "]"))

-- The first *upstream.Error of the chain.
unfoldable pub as_upstream : Error → Option Severity
as_upstream (leaf c t) = none
as_upstream (wrap a e b) = as_upstream e
as_upstream (join e f) = elim (as_upstream e) [ none ↦ as_upstream f | some s ↦ some s ]
as_upstream (classified s code e) = some s

-- The first error of the chain that a test of causes accepts.
unfoldable pub find_cause : (Cause → Bool) → Error → Option Cause
find_cause p (leaf c t) = if p c then some c else none
find_cause p (wrap a e b) = find_cause p e
find_cause p (join e f) = elim (find_cause p e) [ none ↦ find_cause p f | some c ↦ some c ]
find_cause p (classified s code e) = find_cause p e

unfoldable pub has_cause : (Cause → Bool) → Error → Bool
unfolding find_cause
has_cause p e = elim (find_cause p e) [ none ↦ false | some c ↦ true ]

abbrev pub is_canceled : Cause → Bool
is_canceled canceled = true
is_canceled _ = false

abbrev pub is_deadline : Cause → Bool
is_deadline deadline_exceeded = true
is_deadline _ = false

abbrev pub is_poisoned : Cause → Bool
is_poisoned poisoned = true
is_poisoned _ = false

abbrev pub is_too_large : Cause → Bool
is_too_large message_too_large = true
is_too_large _ = false

-- io.EOF, io.ErrUnexpectedEOF and net.ErrClosed
abbrev pub is_hangup : Cause → Bool
is_hangup eof = true
is_hangup unexpected_eof = true
is_hangup net_closed = true
is_hangup _ = false

abbrev pub is_imap : Cause → Bool
is_imap (imap c t) = true
is_imap _ = false

-- Values that implement net.Error; context.DeadlineExceeded and net.ErrClosed do too.
abbrev pub is_net : Cause → Bool
is_net network = true
is_net deadline_exceeded = true
is_net net_closed = true
is_net _ = false

unfoldable pub severity_of : Error → Severity
unfolding as_upstream
severity_of e = elim (as_upstream e) [ none ↦ retryable | some s ↦ s ]

unfoldable pub severity_for_text : Text → Severity
severity_for_text text =
    let low = Text.to_lower text in
    if Text.contains low (codes "authentication failed")
      || Text.contains low (codes "invalid credentials")
      || Text.contains low (codes "login failed")
      || Text.contains low (codes "password")
      || Text.contains low (codes "application-specific password")
    then fatal_account
    else if Text.contains low (codes "no such mailbox")
        || Text.contains low (codes "mailbox does not exist")
        || Text.contains low (codes "nonexistent")
    then fatal_mailbox
    else retryable

unfoldable pub severity_for_code : ResponseCode → Text → Severity
severity_for_code authentication_failed text = fatal_account
severity_for_code authorization_failed text = fatal_account
severity_for_code expired text = fatal_account
severity_for_code privacy_required text = fatal_account
severity_for_code non_existent text = fatal_mailbox
severity_for_code try_create text = fatal_mailbox
severity_for_code unavailable text = retryable
severity_for_code in_use text = retryable
severity_for_code server_bug text = retryable
severity_for_code cannot text = retryable
severity_for_code limit text = retryable
severity_for_code no_code text = severity_for_text text
severity_for_code (other_code c) text = severity_for_text text

abbrev classify_imap : Error → Option Cause → Error
classify_imap e (some (imap code text)) = classified (severity_for_code code text) code e
classify_imap e _ =
    if has_cause is_net e
    then classified retryable no_code e
    else classified (severity_for_text (error_text e)) no_code e

unfoldable pub classify : Error → Error
unfolding has_cause
classify e = elim (as_upstream e) [
  | some s ↦ e
  | none ↦
      if has_cause is_canceled e || has_cause is_deadline e
      then classified retryable no_code e
      else classify_imap e (find_cause is_imap e)
]

abbrev is_limit : Option Cause → Bool
is_limit (some (imap limit text)) = true
is_limit _ = false

unfoldable pub is_too_many_connections : Error → Bool
is_too_many_connections e =
    is_limit (find_cause is_imap e)
    || (let low = Text.to_lower (error_text e) in
        Text.contains low (codes "too many connections")
        || Text.contains low (codes "maximum number of connections")
        || Text.contains low (codes "concurrent connections"))

-- A Go result and error.
pub data Result (A : Type 0) : Type 0 where
  ok : A → Result A
  err : Error → Result A

pub Result-cases :
    {A : Type 0} (r : Result A) → ((a : A) × (r ≡ ok a)) ⊎ ((e : Error) × (r ≡ err e))
Result-cases (ok a) = inl (a, refl)
Result-cases (err e) = inr (e, refl)
