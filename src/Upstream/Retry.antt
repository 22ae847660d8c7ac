-- ===== src/Upstream/Retry.antt =====
-- internal/upstream/retry.go: Backoff and Retry. Durations are int64 values as bit patterns; the
-- random source, the clock and the operation that is retried are parameters.
pub mod Delay
pub mod Calls
pub mod Keeps
use imapped.Base.{
  ℕ, zero, suc, ◌+◌, ◌-◌, ◌≡◌, Bool, true, false, ◌&&◌, Option, none, some, if◌then◌else◌, [], ◌++◌,
}
use imapped.Base.Int64
use imapped.Base.Text
use imapped.Base.Text.{codes}
use imapped.Upstream.Errors.{
  Error, Severity, retryable, fatal_account, fatal_mailbox, wrap, classify, severity_of,
}

-- `for i := 1; i < attempt && backoff < max; i++ { backoff *= 2 }`, by the rounds left.
unfoldable pub double : ℕ → ℕ → ℕ → ℕ
double zero backoff max = backoff
double (suc rounds) backoff max =
    let rest = double rounds (Int64.add backoff backoff) max in
    if Int64.lt backoff max then rest else backoff

-- The delay before the random draw.
unfoldable pub ceiling : ℕ → ℕ → ℕ → ℕ
unfolding double
ceiling attempt base max =
    let attempt' = if Int64.lt attempt 1 then 1 else attempt in
    let backoff = double (attempt' - 1) base max in if Int64.lt max backoff then max else backoff

-- `rand n` is rand.Int64N(n).
unfoldable pub backoff : (ℕ → ℕ) → ℕ → ℕ → ℕ → ℕ
unfolding ceiling
backoff rand attempt base max =
    let c = ceiling attempt base max in if Int64.le c 0 then 0 else Int64.add (rand c) 1

abbrev pub is_retryable : Severity → Bool
is_retryable retryable = true
is_retryable fatal_account = false
is_retryable fatal_mailbox = false

-- The world that Retry runs in: what ctx.Err() says, the operation, and the wait before the next
-- attempt, which reports whether the delay passed (and not the context ended).
pub record World (W : Type 0) : Type 0 where
  pub ctx_err : W → Option Error
  pub call : W → Option Error × W
  pub pause : ℕ → W → Bool × W

-- One attempt either ends the loop with a result, or leaves an error that may be retried.
pub data Verdict (W : Type 0) : Type 0 where
  finish : Option Error → W → Verdict W
  again : Error → W → Verdict W

unfoldable pub judge : {W : Type 0} → Option Error → W → Verdict W
judge none w = finish none w
judge (some e) w =
    if is_retryable (severity_of (classify e))
    then again (classify e) w
    else finish (some (classify e)) w

unfoldable pub gave_up_after : ℕ → Error → Error
gave_up_after attempts last =
    wrap (codes "giving up after " ++ (Text.decimal attempts ++ codes " attempts: ")) last []

module _ {W : Type 0} (world : World W) where
  open world use {ctx_err, call, pause}

  unfoldable pub attempt_once : W → Verdict W
  unfolding judge
  attempt_once w = elim (ctx_err w) [
    | some e ↦ finish (some e) w
    | none ↦ let (r, w') = call w in judge r w'
  ]

  -- `left` attempts may follow attempt number `attempt`, of `attempts` in all.
  unfoldable pub retry_loop : ℕ → ℕ → ℕ → W → Option Error × W
  retry_loop attempts zero attempt w = elim (attempt_once w) [
    | finish r w' ↦ (r, w')
    | again last w' ↦ (some (gave_up_after attempts last), w')
  ]
  retry_loop attempts (suc left) attempt w = elim (attempt_once w) [
    | finish r w' ↦ (r, w')
    | again last w' ↦
        let (go, w'') = pause attempt w' in
        elim go [ true ↦ retry_loop attempts left (attempt + 1) w'' | false ↦ (ctx_err w'', w'') ]
  ]

  unfoldable pub retry : ℕ → W → Option Error × W
  unfolding retry_loop attempt_once
  retry attempts w = let n = if Int64.lt attempts 1 then 1 else attempts in retry_loop n (n - 1) 1 w
