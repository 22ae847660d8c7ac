-- ===== src/Syncer/Replay/Settled.antt =====
-- internal/syncer/mutations.go: what becomes of the changes of a batch.
use imapped.Base.{
  ℕ, ◌≡◌, refl, inl, inr, Bool, true, false, ◌&&◌, ◌||◌, List, [], ◌∷◌, arith, ◌==◌, any, All,
  All-imp, if◌then◌else◌, subst, leb, Bool-cases, Option-cases,
}
use imapped.Base.Text.{Text}
use imapped.Store.Sql.{update_where}
use imapped.Store.Mutations.{
  Mutation, Queue, is_in_flight, mutation_succeeded, mutation_failed, fail_row,
}
use imapped.Upstream.Errors.{Error, severity_of, error_text}
use imapped.Upstream.Retry.{backoff}
use imapped.Upstream.Session.{is_fatal_account}
use imapped.Syncer.Replay.{
  Upstream, Limits, Replay, Flow, goes_on, returns, apply_mutation, run, settle_success,
  settle_failure, replay_one, replay_batch, max_mutation_attempts,
}

-- A row of one of the changes that is not in flight.
abbrev pub IsSettled : List Mutation → Mutation → Type 0
IsSettled batch r = (any (λ m. m.id == r.id) batch && is_in_flight r.status) ≡ false

abbrev AllSettled : List Mutation → Queue → Type 0
AllSettled batch q = All (IsSettled batch) q.rows

abbrev reverse_onto : List Mutation → List Mutation → List Mutation
reverse_onto [] done = done
reverse_onto (m ∷ batch) done = reverse_onto batch (m ∷ done)

any-reverse_onto :
    (p : Mutation → Bool) (batch done : List Mutation)
    → any p (reverse_onto batch done) ≡ (any p batch || any p done)
any-reverse_onto p [] done = refl
any-reverse_onto p (m ∷ batch) done = ground (arith, any-reverse_onto p batch (m ∷ done))

-- What holds where a pass goes on.
abbrev pub Holds : {C W : Type 0} → (Replay C W → Type 0) → Flow C W → Type 0
Holds P (goes_on t) = P t
Holds P (returns e t) = Unit

and_false : (b : Bool) → (b && false) ≡ false
and_false true = refl
and_false false = refl

settle_row :
    (m : Mutation) (f : Mutation → Mutation) (batch : List Mutation) (r : Mutation) (b : Bool)
    → (r.id == m.id) ≡ b
    → is_in_flight (f r).status ≡ false
    → IsSettled batch r
    → IsSettled (m ∷ batch) (if b then f r else r)
settle_row m f batch r true e g h = rw g (and_false _)
settle_row m f batch r false e g h = ground (arith, e, h)

settle_rows :
    (m : Mutation) (f : Mutation → Mutation) (batch rows : List Mutation)
    → ((r : Mutation) → is_in_flight (f r).status ≡ false)
    → All (IsSettled batch) rows
    → All (IsSettled (m ∷ batch)) (update_where (λ r. r.id == m.id) f rows)
settle_rows m f batch [] g h = tt
settle_rows m f batch (r ∷ rows) g h =
    (settle_row m f batch r (r.id == m.id) refl (g r) h.0, settle_rows m f batch rows g h.1)

succeeded-Settled :
    (m : Mutation) (batch : List Mutation) (q : Queue)
    → AllSettled batch q
    → AllSettled (m ∷ batch) (mutation_succeeded m.id q)
unfolding mutation_succeeded
succeeded-Settled m batch q h = settle_rows m _ batch q.rows (λ r. refl) h

failed-Settled :
    (m : Mutation) (now : ℕ) (text : Text) (delay most : ℕ) (batch : List Mutation) (q : Queue)
    → AllSettled batch q
    → AllSettled (m ∷ batch) (mutation_failed m.id now text delay most q)
unfolding mutation_failed fail_row
failed-Settled m now text delay most batch q h =
    settle_rows m (fail_row now delay text most) batch q.rows
      (λ r. elim (Bool-cases (leb most r.attempts)) [ inl e ↦ rw e refl | inr e ↦ rw e refl ]) h

module _ {C W : Type 0} (upstream : Upstream C W) (limits : Limits) where
  success-Settled :
      (m : Mutation) (batch : List Mutation) (s : Replay C W)
      → AllSettled batch s.queue
      → Holds (λ t. AllSettled (m ∷ batch) t.queue) (settle_success upstream limits m.id s)
  unfolding settle_success run
  success-Settled m batch s h = elim (Option-cases (upstream.store_err s.link.world).0) [
    | inl e ↦ rw (e, settle_success) (rw (e, run) (succeeded-Settled m batch s.queue h))
    | inr e ↦ rw (e.1, settle_success) tt
  ]

  failure-Settled :
      (m : Mutation) (x : Error) (batch : List Mutation) (s : Replay C W)
      → AllSettled batch s.queue
      → Holds (λ t. AllSettled (m ∷ batch) t.queue) (settle_failure upstream limits m x s)
  unfolding settle_failure run
  failure-Settled m x batch s h =
      let drawn = upstream.rand s.link.world in
      let delay = backoff drawn.0 m.attempts limits.retry_base_delay limits.retry_max_delay in
      let clock = upstream.now drawn.1 in
      elim (Option-cases (upstream.store_err clock.1).0) [
        | inr e ↦ rw (e.1, settle_failure) tt
        | inl e ↦ elim (Bool-cases (is_fatal_account (severity_of x))) [
          | inl b ↦ rw (e, settle_failure) (rw b tt)
          | inr b ↦
              rw (e, settle_failure)
                (rw b (
                  rw (e, run)
                    (failed-Settled m clock.0 (error_text x) delay max_mutation_attempts batch
                      s.queue h)))
        ]
      ]

  one-Settled :
      (m : Mutation) (batch : List Mutation) (s : Replay C W)
      → AllSettled batch s.queue
      → Holds (λ t. AllSettled (m ∷ batch) t.queue) (replay_one upstream limits m s)
  unfolding replay_one
  one-Settled m batch s h =
      let r = apply_mutation upstream limits m s.link in
      elim (Option-cases r.0) [
        | inl e ↦ rw (e, replay_one) (success-Settled m batch (record s { link = r.1 }) h)
        | inr e ↦ rw (e.1, replay_one) (failure-Settled m e.0 batch (record s { link = r.1 }) h)
      ]

  batch-Settled :
      (batch done : List Mutation) (s : Replay C W)
      → AllSettled done s.queue
      → Holds
          (λ t. AllSettled (reverse_onto batch done) t.queue)
          (replay_batch upstream limits batch s)
  unfolding replay_batch
  batch-Settled [] done s h = h
  batch-Settled (m ∷ batch) done s h =
      go (batch-Settled batch (m ∷ done)) (replay_one upstream limits m s) (one-Settled m done s h)
    where
      go :
          ((t : Replay C W)
            → AllSettled (m ∷ done) t.queue
            → Holds
                (λ u. AllSettled (reverse_onto batch (m ∷ done)) u.queue)
                (replay_batch upstream limits batch t))
          → (f : Flow C W) → Holds (λ t. AllSettled (m ∷ done) t.queue) f
          → Holds
              (λ t. AllSettled (reverse_onto batch (m ∷ done)) t.queue)
              (elim f [
                | goes_on t ↦ replay_batch upstream limits batch t
                | returns e t ↦ returns e t
              ])
      go later (goes_on t) k = later t k
      go later (returns e t) k = tt

unclaimed : (rows : List Mutation) → All (IsSettled []) rows
unclaimed [] = tt
unclaimed (r ∷ rows) = (refl, unclaimed rows)

-- When the pass over a batch goes on to the next one, no change of the batch is in flight: each has
-- been recorded as succeeded, or waits for another attempt, or has failed.
pub replay_batch-IsSettled :
    {C W : Type 0} (upstream : Upstream C W) (limits : Limits) (batch : List Mutation)
    (s t : Replay C W)
    → replay_batch upstream limits batch s ≡ goes_on t
    → All (IsSettled batch) t.queue.rows
replay_batch-IsSettled upstream limits batch s t e =
    All-imp _ _ (λ r h. ground (arith, h, any-reverse_onto (λ m. m.id == r.id) batch []))
      t.queue.rows
      (subst (Holds λ u. AllSettled (reverse_onto batch []) u.queue) e
        (batch-Settled upstream limits batch [] s (unclaimed s.queue.rows)))
