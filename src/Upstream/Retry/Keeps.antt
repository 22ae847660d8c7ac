-- ===== src/Upstream/Retry/Keeps.antt =====
-- What every call and every wait of Retry keeps, Retry keeps.
use imapped.Base.{
  ℕ, zero, suc, ◌+◌, ◌-◌, ◌≡◌, refl, ◌∙◌, ◌⊎◌, inl, inr, Option, none, some, if◌then◌else◌,
  Bool-cases, Option-cases,
}
use imapped.Base.Int64
use imapped.Upstream.Errors.{Error, classify, severity_of}
use imapped.Upstream.Retry.{
  World, Verdict, finish, again, judge, is_retryable, attempt_once, retry_loop, retry,
}

abbrev world_of : {X : Type 0} → Verdict X → X
world_of (finish r x) = x
world_of (again e x) = x

Verdict-cases :
    {X : Type 0} (v : Verdict X)
    → ((r : Option Error) × (v ≡ finish r (world_of v)))
      ⊎ ((e : Error) × (v ≡ again e (world_of v)))
Verdict-cases (finish r x) = inl (r, refl)
Verdict-cases (again e x) = inr (e, refl)

module _ {X : Type 0} (world : World X) {A : Type 0} (f : X → A)
    (calls : (x : X) → f (world.call x).1 ≡ f x)
    (pauses : (n : ℕ) (x : X) → f (world.pause n x).1 ≡ f x) where
  judge-world : (r : Option Error) (x : X) → world_of (judge r x) ≡ x
  unfolding judge
  judge-world none x = refl
  judge-world (some e) x = elim (Bool-cases (is_retryable (severity_of (classify e)))) [
    | inl b ↦ rw b refl
    | inr b ↦ rw b refl
  ]

  attempt_once-keeps : (x : X) → f (world_of (attempt_once world x)) ≡ f x
  unfolding attempt_once
  attempt_once-keeps x = elim (Option-cases (world.ctx_err x)) [
    | inl e ↦ rw (e, attempt_once) (rw (judge-world (world.call x).0 (world.call x).1) (calls x))
    | inr e ↦ rw (e.1, attempt_once) refl
  ]

  retry_loop-keeps :
      (attempts left attempt : ℕ) (x : X) → f (retry_loop world attempts left attempt x).1 ≡ f x
  unfolding retry_loop
  retry_loop-keeps attempts zero attempt x = elim (Verdict-cases (attempt_once world x)) [
    | inl v ↦ rw (v.1, retry_loop) (attempt_once-keeps x)
    | inr v ↦ rw (v.1, retry_loop) (attempt_once-keeps x)
  ]
  retry_loop-keeps attempts (suc left) attempt x = elim (Verdict-cases (attempt_once world x)) [
    | inl v ↦ rw (v.1, retry_loop) (attempt_once-keeps x)
    | inr v ↦
        let y = world_of (attempt_once world x) in
        let p = world.pause attempt y in
        let kept = pauses attempt y ∙ attempt_once-keeps x in
        elim (Bool-cases p.0) [
          | inl b ↦
              rw (v.1, retry_loop) (rw b (retry_loop-keeps attempts left (attempt + 1) p.1 ∙ kept))
          | inr b ↦ rw (v.1, retry_loop) (rw b kept)
        ]
  ]

  pub retry-keeps : (attempts : ℕ) (x : X) → f (retry world attempts x).1 ≡ f x
  unfolding retry
  retry-keeps attempts x =
      let n = if Int64.lt attempts 1 then 1 else attempts in retry_loop-keeps n (n - 1) 1 x
