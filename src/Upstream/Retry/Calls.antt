-- ===== src/Upstream/Retry/Calls.antt =====
-- How often Retry calls, and when it stops.
use imapped.Base.{
  ℕ, zero, suc, ◌+◌, ◌-◌, ◌<◌, ◌≡◌, refl, ap, inl, inr, true, false, Option, none, some, arith,
  if◌then◌else◌, max, Bool-cases, Option-cases,
}
use imapped.Base.Int64
use imapped.Base.Int64.{two63}
use imapped.Upstream.Errors.{Error, classify, severity_of}
use imapped.Upstream.Retry.{
  World, gave_up_after, Verdict, finish, again, judge, is_retryable, attempt_once, retry_loop,
  retry,
}

module _ {W : Type 0} (world : World W) where
  open world use {ctx_err, call, pause}

  -- `Tried k w u`: from `w`, `k` calls each failed in a way that may be retried and were each
  -- followed by a full wait, and `u` is the state after them.
  pub data Tried (w : W) : ℕ → W → Type 0 where
    untried : Tried w 0 w
    retried :
        {k : ℕ} {u v x : W} (e : Error) (attempt : ℕ)
        → Tried w k u
        → ctx_err u ≡ none
        → call u ≡ (some e, v)
        → is_retryable (severity_of (classify e)) ≡ true
        → pause attempt v ≡ (true, x)
        → Tried w (suc k) x

  -- How the loop may end in the state `u` after `k` retried calls, when `n` calls are allowed.
  pub data Ends (n k : ℕ) (u : W) : Option Error → W → Type 0 where
    stopped : (e : Error) → ctx_err u ≡ some e → Ends n k u (some e) u
    succeeded : {v : W} → ctx_err u ≡ none → call u ≡ (none, v) → Ends n k u none v
    failed_for_good :
        {v : W} (e : Error)
        → ctx_err u ≡ none
        → call u ≡ (some e, v)
        → is_retryable (severity_of (classify e)) ≡ false
        → Ends n k u (some (classify e)) v
    interrupted :
        {v x : W} (e : Error) (attempt : ℕ)
        → ctx_err u ≡ none
        → call u ≡ (some e, v)
        → is_retryable (severity_of (classify e)) ≡ true
        → suc k < n
        → pause attempt v ≡ (false, x)
        → Ends n k u (ctx_err x) x
    gave_up :
        {v : W} (e : Error)
        → ctx_err u ≡ none
        → call u ≡ (some e, v)
        → is_retryable (severity_of (classify e)) ≡ true
        → suc k ≡ n
        → Ends n k u (some (gave_up_after n (classify e))) v

  -- What one attempt does.
  data Once (u : W) : Verdict W → Type 0 where
    no_call : (e : Error) → ctx_err u ≡ some e → Once u (finish (some e) u)
    call_ok : {v : W} → ctx_err u ≡ none → call u ≡ (none, v) → Once u (finish none v)
    call_fatal :
        {v : W} (e : Error)
        → ctx_err u ≡ none
        → call u ≡ (some e, v)
        → is_retryable (severity_of (classify e)) ≡ false
        → Once u (finish (some (classify e)) v)
    call_again :
        {v : W} (e : Error)
        → ctx_err u ≡ none
        → call u ≡ (some e, v)
        → is_retryable (severity_of (classify e)) ≡ true
        → Once u (again (classify e) v)

  judge-Once :
      (u : W) → ctx_err u ≡ none → (r : Option Error) (v : W) → call u ≡ (r, v) → Once u (judge r v)
  unfolding judge
  judge-Once u h none v c = call_ok h c
  judge-Once u h (some e) v c = elim (Bool-cases (is_retryable (severity_of (classify e)))) [
    | inl b ↦ rw b (call_again e h c b)
    | inr b ↦ rw b (call_fatal e h c b)
  ]

  attempt_once-Once : (u : W) → Once u (attempt_once world u)
  unfolding attempt_once
  attempt_once-Once u = elim (Option-cases (ctx_err u)) [
    | inl h ↦ rw (h, attempt_once) (judge-Once u h (call u).0 (call u).1 refl)
    | inr (e, h) ↦ rw (h, attempt_once) (no_call e h)
  ]

  -- The loop after `k` retried calls, with `left` more after the next one.
  abbrev pub Outcome : ℕ → W → Option Error × W → Type 0
  Outcome n w r = (k : ℕ) × (u : W) × Tried w k u × (k < n) × Ends n k u r.0 r.1

  loop-Outcome :
      (n left k attempt : ℕ) (w u : W)
      → Tried w k u
      → k + suc left ≡ n
      → Outcome n w (retry_loop world n left attempt u)
  unfolding retry_loop
  loop-Outcome n zero k attempt w u t e = go (attempt_once world u) refl (attempt_once-Once u)
    where
      go :
          (d : Verdict W)
          → attempt_once world u ≡ d
          → Once u d
          → Outcome n w (retry_loop world n zero attempt u)
      go _ h (no_call f c) = rw (h, retry_loop) (k, u, t, omega arith, stopped f c)
      go _ h (call_ok c d) = rw (h, retry_loop) (k, u, t, omega arith, succeeded c d)
      go _ h (call_fatal f c d b) =
          rw (h, retry_loop) (k, u, t, omega arith, failed_for_good f c d b)
      go _ h (call_again f c d b) =
          rw (h, retry_loop) (k, u, t, omega arith, gave_up f c d b (omega arith))
  loop-Outcome n (suc left) k attempt w u t e =
      go (loop-Outcome n left) (attempt_once world u) refl (attempt_once-Once u)
    where
      go :
          ((k attempt : ℕ) (w u : W)
            → Tried w k u
            → k + suc left ≡ n
            → Outcome n w (retry_loop world n left attempt u))
          → (d : Verdict W) → attempt_once world u ≡ d
          → Once u d
          → Outcome n w (retry_loop world n (suc left) attempt u)
      go ih _ h (no_call f c) = rw (h, retry_loop) (k, u, t, omega arith, stopped f c)
      go ih _ h (call_ok c d) = rw (h, retry_loop) (k, u, t, omega arith, succeeded c d)
      go ih _ h (call_fatal f c d b) =
          rw (h, retry_loop) (k, u, t, omega arith, failed_for_good f c d b)
      go ih _ h (call_again {v} f c d b) = elim (Bool-cases (pause attempt v).0) [
        | inl b' ↦
            rw (h, b', retry_loop)
              (ih (suc k) (attempt + 1) w (pause attempt v).1
                (retried f attempt t c d b (ap (λ s. (s, (pause attempt v).1)) b')) (omega arith))
        | inr b' ↦
            rw (h, b', retry_loop)
              (
                k,
                u,
                t,
                omega arith,
                interrupted f attempt c d b (omega arith) (ap (λ s. (s, (pause attempt v).1)) b'),
              )
      ]

  -- Retry is its specification: after k retried failures, fewer than the attempts allowed (at least
  -- one is), it ends because the context ended, a call succeeded, a call failed for good, or that
  -- was the last attempt. No call follows a success or a failure that is not retryable, and nil
  -- comes from a successful call alone unless the context reports no error after it ended.
  pub retry-Outcome :
      (attempts : ℕ) (w : W)
      → attempts < two63
      → Outcome (max 1 attempts) w (retry world attempts w)
  unfolding retry
  retry-Outcome attempts w h =
      let e : (if Int64.lt attempts 1 then 1 else attempts) ≡ max 1 attempts =
        ground (arith, Int64.lt_small attempts 1 h) in
      rw e (loop-Outcome (max 1 attempts) (max 1 attempts - 1) 0 1 w w untried (omega arith))
