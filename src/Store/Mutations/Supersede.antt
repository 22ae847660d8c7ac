-- ===== src/Store/Mutations/Supersede.antt =====
-- The order in which queued changes of one message are replayed.
use imapped.Base.{ℕ, ◌<◌, ◌≡◌, false, [], ◌∷◌, arith, ==_refl}
use imapped.Base.Text
use imapped.Base.Text.{Text}
use imapped.Store.Sql.{order_by, insert_row}
use imapped.Store.Mutations.{Queue, store_flags, insert_or_requeue, due_ids, is_due}

-- The queue after the change with the first key, then the one with the second, then the first
-- again.
abbrev pub there_and_back : ℕ → ℕ → ℕ → ℕ → ℕ → Text → Text → Text → Text → Queue
there_and_back t1 t2 t3 account mailbox payload payload' key key' =
    insert_or_requeue t3 account mailbox store_flags payload key (
      insert_or_requeue t2 account mailbox store_flags payload' key' (
        insert_or_requeue t1 account mailbox store_flags payload key
          (record { rows = []; next_id = 0 })))

-- Of three requests on an empty queue, the third with the key of the first and the second, later
-- than the first, with another key, the two rows are due in the order of the first two requests:
-- the change that was made last comes first.
repeated_change_first :
    (t1 t2 t3 now account mailbox : ℕ) (payload payload' key key' : Text)
    → t1 < t2
    → Text.same key key' ≡ false
    → Text.same key' key ≡ false
    → due_ids
        (λ i. false)
        account
        2
        now
        (there_and_back t1 t2 t3 account mailbox payload payload' key key')
      ≡ 0 ∷ 1 ∷ []
unfolding insert_or_requeue due_ids is_due order_by insert_row
repeated_change_first t1 t2 t3 now account mailbox payload payload' key key' h n n' =
    rw (n, n', Text.same_refl key, ==_refl account) (ground (arith, h))
