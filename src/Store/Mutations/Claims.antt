-- ===== src/Store/Mutations/Claims.antt =====
-- Claims, failures and successes of queued changes.
use imapped.Base.{
  ℕ, ◌+◌, ◌≤◌, ◌<◌, ◌≡◌, refl, ap, ◌∙◌, inl, inr, Bool, false, ◌&&◌, not, none, List, arith, ◌==◌,
  if◌then◌else◌, any, count, All, Bool-cases,
}
use imapped.Base.Text
use imapped.Base.Text.{Text}
use imapped.Store.Sql.{
  member, All-order_by, All-take, All-map, count-update, count-kept, count-none, count-any,
  count-append, claimed-All,
}
use imapped.Store.Mutations.{
  Mutation, MutationType, Queue, pending, succeeded, is_due, due_ids, claim, claim_due_mutations,
  mutation_succeeded, mutation_failed, fail_row, insert_or_requeue, requeue, has_key,
  release_stale_mutations, is_in_flight, is_stale,
}

-- No change that a claim takes is in a claim of the queue that it leaves behind, by any worker,
-- for any account, with any limit, at any time, and whatever rows other transactions hold.
pub claim_exclusive :
    (returning : List Mutation → List Mutation) (locked locked' : ℕ → Bool)
    (account account' limit limit' now now' : ℕ) (worker : Text) (q : Queue)
    → let ids = due_ids locked account limit now q in
      All
        (λ i. member i ids ≡ false)
        (due_ids locked' account' limit' now'
          (claim_due_mutations returning locked account limit worker now q).1)
unfolding claim_due_mutations due_ids is_due
claim_exclusive returning locked locked' account account' limit limit' now now' worker q =
    All-map _ _ _ (
      All-take _ limit' _ (
        All-order_by _ _ _ (
          claimed-All (λ m. m.id) (due_ids locked account limit now q) (claim worker now)
            (λ m. is_due account' now' m && not (locked' m.id)) (λ m. ground arith) q.rows)))

-- A failed change is never parked: once the delay is over, every row of the change that belongs
-- to the account is due again, whatever its number of attempts and the maximum.
mutation_failed-due :
    (id account now later retry_after max_attempts : ℕ) (message : Text) (q : Queue)
    → now + retry_after ≤ later
    → count
        (λ m. m.id == id && is_due account later m)
        (mutation_failed id now message retry_after max_attempts q).rows
      ≡ count (λ m. m.id == id && m.account_id == account) q.rows
unfolding mutation_failed fail_row is_due
mutation_failed-due id account now later retry_after max_attempts message q h =
    count-update (λ m. m.id == id && is_due account later m) (λ m. m.id == id)
      (λ m. m.id == id && m.account_id == account) (fail_row now retry_after message max_attempts)
      (λ m. ground arith) q.rows

-- At a time before the end of the delay, no row of a change that failed is due, and none of a
-- change that succeeded.
settled_not_due :
    (id account now later retry_after max_attempts : ℕ) (message : Text) (q : Queue)
    → later < now + retry_after
    → (count
          (λ m. m.id == id && is_due account later m)
          (mutation_failed id now message retry_after max_attempts q).rows
        ≡ 0)
      × (count (λ m. m.id == id && is_due account later m) (mutation_succeeded id q).rows ≡ 0)
unfolding mutation_failed mutation_succeeded fail_row is_due
settled_not_due id account now later retry_after max_attempts message q h = (
  count-update (λ m. m.id == id && is_due account later m) (λ m. m.id == id) (λ m. false)
        (fail_row now retry_after message max_attempts) (λ m. ground (arith, h)) q.rows
      ∙ count-none q.rows,
  count-update (λ m. m.id == id && is_due account later m) (λ m. m.id == id) (λ m. false)
        (λ m. record m {
          status = succeeded;
          locked_by = none;
          locked_at = none;
          last_error = none;
        })
        (λ m. ground arith) q.rows
      ∙ count-none q.rows,
)

-- At most one row for each key (the unique index that ON CONFLICT relies on).
abbrev pub IsUnique : Queue → Type 0
IsUnique q = (key : Text) → count (has_key key) q.rows ≤ 1

-- The changes that the store makes to the queue.
pub data Statement : Type 0 where
  enqueues : ℕ → ℕ → ℕ → MutationType → Text → Text → Statement
  claims : (ℕ → Bool) → ℕ → ℕ → Text → ℕ → Statement
  succeeds : ℕ → Statement
  fails : ℕ → ℕ → Text → ℕ → ℕ → Statement
  releases : ℕ → ℕ → Statement

unfoldable pub execute : Statement → Queue → Queue
execute (enqueues now account mailbox kind payload key) q =
    insert_or_requeue now account mailbox kind payload key q
execute (claims locked account limit worker now) q =
    (claim_due_mutations (λ ms. ms) locked account limit worker now q).1
execute (succeeds id) q = mutation_succeeded id q
execute (fails id now message retry_after max_attempts) q =
    mutation_failed id now message retry_after max_attempts q
execute (releases older_than now) q = (release_stale_mutations older_than now q).1

one_more :
    (key other : Text) (rows : List Mutation)
    → any (has_key key) rows ≡ false
    → count (has_key other) rows ≤ 1
    → count (has_key other) rows + (if Text.same key other then 1 else 0) ≤ 1
one_more key other rows e u = elim (Bool-cases (Text.same key other)) [
  | inl k ↦ rw k (
      ground (
        arith,
        ap (λ t. count (has_key t) rows) (Text.same-eq key other k),
        count-any (has_key key) rows e,
      ))
  | inr k ↦ rw k (ground (arith, u))
]

enqueue-IsUnique :
    (now account mailbox : ℕ) (kind : MutationType) (payload key : Text) (q : Queue)
    → IsUnique q
    → IsUnique (insert_or_requeue now account mailbox kind payload key q)
unfolding insert_or_requeue
enqueue-IsUnique now account mailbox kind payload key q u other =
    elim (Bool-cases (any (has_key key) q.rows)) [
      | inl e ↦
          rw e (rw (count-kept (has_key other) (has_key key) requeue (λ m. refl) q.rows) (u other))
      | inr e ↦
          rw e (rw (count-append (has_key other) q.rows _) (one_more key other q.rows e (u other)))
    ]

-- Every statement keeps the keys of the queue unique: when no key stands twice before it, none
-- does after it.
pub execute-IsUnique : (s : Statement) (q : Queue) → IsUnique q → IsUnique (execute s q)
unfolding execute claim_due_mutations mutation_succeeded mutation_failed fail_row
    release_stale_mutations
execute-IsUnique (enqueues now account mailbox kind payload key) q u other =
    enqueue-IsUnique now account mailbox kind payload key q u other
execute-IsUnique (claims locked account limit worker now) q u key =
    rw
      (count-kept (has_key key) (λ m. member m.id (due_ids locked account limit now q))
        (claim worker now) (λ m. refl) q.rows)
      (u key)
execute-IsUnique (succeeds id) q u key =
    rw
      (count-kept (has_key key) (λ m. m.id == id)
        (λ m. record m {
          status = succeeded;
          locked_by = none;
          locked_at = none;
          last_error = none;
        })
        (λ m. refl) q.rows)
      (u key)
execute-IsUnique (fails id now message retry_after max_attempts) q u key =
    rw
      (count-kept (has_key key) (λ m. m.id == id) (fail_row now retry_after message max_attempts)
        (λ m. refl) q.rows)
      (u key)
execute-IsUnique (releases older_than now) q u key =
    rw
      (count-kept (has_key key) (λ m. is_in_flight m.status && is_stale older_than now m.locked_at)
        (λ m. record m { status = pending; locked_by = none; locked_at = none }) (λ m. refl) q.rows)
      (u key)
