-- ===== src/Upstream/Errors/Classify.antt =====
-- What classification adds to an error, and what it leaves alone.
use imapped.Base.{
  ◌≡◌, refl, Bool, true, false, ◌||◌, Option, none, some, Bool-cases, arith, if◌then◌else◌,
  Option-cases, inl, inr,
}
use imapped.Base.Text.{Text}
use imapped.Upstream.Errors.{
  Severity, retryable, Error, Cause, ResponseCode, as_upstream, find_cause, has_cause, is_net,
  classified, is_canceled, is_deadline, is_imap, severity_of, severity_for_code, classify,
  classify_imap, imap, no_code,
}

-- The error with a severity and a code put on it.
abbrev Tagged : Error → Error → Type 0
Tagged e r = (s : Severity) × (code : ResponseCode) × (r ≡ classified s code e)

fallback-Tagged :
    (e : Error) (s : Severity) (b : Bool)
    → Tagged e (if b then classified retryable no_code e else classified s no_code e)
fallback-Tagged e s true = (retryable, no_code, refl)
fallback-Tagged e s false = (s, no_code, refl)

classify_imap-Tagged : (e : Error) (c : Option Cause) → Tagged e (classify_imap e c)
classify_imap-Tagged e (some (imap code text)) = (severity_for_code code text, code, refl)
classify_imap-Tagged e _ = fallback-Tagged e _ (has_cause is_net e)

classify-Tagged : (e : Error) → as_upstream e ≡ none → Tagged e (classify e)
unfolding classify
classify-Tagged e h = elim (Bool-cases (has_cause is_canceled e || has_cause is_deadline e)) [
  | inl b ↦ rw (h, b, classify) (retryable, no_code, refl)
  | inr b ↦ rw (h, b, classify) (classify_imap-Tagged e (find_cause is_imap e))
]

classify-old : (e : Error) (s : Severity) → as_upstream e ≡ some s → classify e ≡ e
unfolding classify
classify-old e s h = rw (h, classify)

-- Classifying an error again changes nothing, an error that has a severity keeps it, and every
-- cause that errors.Is or errors.As finds in an error it still finds, at the same place of the
-- chain, once the error is classified.
classify_once :
    (e : Error)
    → (classify (classify e) ≡ classify e)
      × ((s : Severity) → as_upstream e ≡ some s → severity_of (classify e) ≡ s)
      × ((p : Cause → Bool) → find_cause p (classify e) ≡ find_cause p e)
unfolding severity_of find_cause
classify_once e = elim (Option-cases (as_upstream e)) [
  | inl fresh ↦
      let (s, code, h) = classify-Tagged e fresh in
      (rw h (classify-old (classified s code e) s refl), λ t k. cc, λ p. rw h)
  | inr (s, old) ↦
      let h : classify e ≡ e = classify-old e s old in
      (rw h h, λ t k. rw h (rw (k, severity_of)), λ p. rw h)
]

-- A response code that stands for a refused login is fatal for the account, and one for a missing
-- mailbox fatal for the mailbox, whatever the text says and however deep the error is wrapped.
pub classify-code :
    (e : Error) (code : ResponseCode) (text : Text)
    → as_upstream e ≡ none
    → has_cause is_canceled e ≡ false
    → has_cause is_deadline e ≡ false
    → find_cause is_imap e ≡ some (imap code text)
    → severity_of (classify e) ≡ severity_for_code code text
unfolding classify severity_of
classify-code e code text fresh a b c = ground (arith, fresh, a, b, c)
