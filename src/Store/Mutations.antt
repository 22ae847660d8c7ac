-- ===== src/Store/Mutations.antt =====
-- internal/store/mutations.go: the queue of local changes to replay upstream, as the rows of the
-- table pending_mutations. Times are in one unit; JSON and SHA-256 are parameters.
pub mod Claims
pub mod Supersede
use imapped.Base.{
  ℕ, suc, ◌+◌, Bool, true, false, ◌&&◌, ◌||◌, not, Option, none, some, List, [], ◌∷◌, ◌++◌, map,
  ltb, leb, ◌==◌, if◌then◌else◌, select, any, count, take,
}
use imapped.Base.Text
use imapped.Base.Text.{Text, codes}
use imapped.Store.Sql.{update_where, order_by, member}

pub data MutationType : Type 0 where
  store_flags : MutationType
  other_type : Text → MutationType

pub data Status : Type 0 where
  pending in_flight succeeded failed : Status

pub record FlagPayload : Type 0 where
  pub upstream_uid : ℕ
  pub mailbox : Text
  pub flags : List Text

pub record Mutation : Type 0 where
  pub id : ℕ
  pub account_id : ℕ
  pub mailbox_id : ℕ
  pub kind : MutationType
  pub payload : Text
  pub idempotency_key : Text
  pub status : Status
  pub attempts : ℕ
  pub next_attempt_at : Option ℕ
  pub last_error : Option Text
  pub locked_by : Option Text
  pub locked_at : Option ℕ
  pub created_at : ℕ

-- The table and its id sequence.
pub record Queue : Type 0 where
  pub rows : List Mutation
  pub next_id : ℕ

abbrev pub kind_text : MutationType → Text
kind_text store_flags = codes "store_flags"
kind_text (other_type t) = t

-- `digest` is the hex form of SHA-256.
unfoldable pub idempotency_key : (Text → Text) → ℕ → ℕ → MutationType → Text → Text
idempotency_key digest account_id mailbox_id kind payload = digest (
    Text.decimal account_id
    ++ (codes ":"
        ++ (Text.decimal mailbox_id ++ (codes ":" ++ (kind_text kind ++ (codes ":" ++ payload))))))

abbrev pub has_key : Text → Mutation → Bool
has_key key m = Text.same m.idempotency_key key

-- ON CONFLICT (idempotency_key) DO UPDATE
abbrev pub requeue : Mutation → Mutation
requeue m = record m { status = pending; next_attempt_at = none; attempts = 0; last_error = none }

unfoldable pub insert_or_requeue : ℕ → ℕ → ℕ → MutationType → Text → Text → Queue → Queue
insert_or_requeue now account_id mailbox_id kind payload key q =
    if any (has_key key) q.rows
    then record q { rows = update_where (has_key key) requeue q.rows }
    else record {
      rows =
          q.rows
          ++ (record {
            id = q.next_id;
            account_id = account_id;
            mailbox_id = mailbox_id;
            kind = kind;
            payload = payload;
            idempotency_key = key;
            status = pending;
            attempts = 0;
            next_attempt_at = none;
            last_error = none;
            locked_by = none;
            locked_at = none;
            created_at = now;
          })
            ∷ [];
      next_id = suc q.next_id;
    }

-- `encode` is json.Marshal on the payload.
unfoldable pub enqueue_mutation :
    (Text → Text) → (FlagPayload → Text) → ℕ → ℕ → ℕ → MutationType → FlagPayload → Queue → Queue
unfolding insert_or_requeue idempotency_key
enqueue_mutation digest encode now account_id mailbox_id kind payload q =
    insert_or_requeue now account_id mailbox_id kind (encode payload)
      (idempotency_key digest account_id mailbox_id kind (encode payload)) q

-- status IN ('pending', 'failed')
abbrev pub is_open : Status → Bool
is_open pending = true
is_open failed = true
is_open in_flight = false
is_open succeeded = false

-- status IN ('pending', 'in_flight')
abbrev pub is_waiting : Status → Bool
is_waiting pending = true
is_waiting in_flight = true
is_waiting failed = false
is_waiting succeeded = false

abbrev pub is_in_flight : Status → Bool
is_in_flight in_flight = true
is_in_flight pending = false
is_in_flight failed = false
is_in_flight succeeded = false

-- next_attempt_at IS NULL OR next_attempt_at <= now()
abbrev pub is_reached : ℕ → Option ℕ → Bool
is_reached now none = true
is_reached now (some t) = leb t now

unfoldable pub is_due : ℕ → ℕ → Mutation → Bool
is_due account_id now m =
    m.account_id == account_id && is_open m.status && is_reached now m.next_attempt_at

-- The ids that the common table expression `due` selects. `locked` says which rows other
-- transactions hold.
unfoldable pub due_ids : (ℕ → Bool) → ℕ → ℕ → ℕ → Queue → List ℕ
unfolding is_due
due_ids locked account_id limit now q =
    map (λ m. m.id)
      (take limit (
        order_by (λ a b. ltb a.created_at b.created_at)
          (select (λ m. is_due account_id now m && not (locked m.id)) q.rows)))

abbrev pub claim : Text → ℕ → Mutation → Mutation
claim worker now m = record m {
  status = in_flight;
  attempts = suc m.attempts;
  locked_by = some worker;
  locked_at = some now;
}

-- The claimed rows, as they are after the update, and the new table. `returning` is the order in
-- which the database returns the updated rows: no clause of the statement fixes it.
unfoldable pub claim_due_mutations :
    (List Mutation → List Mutation) → (ℕ → Bool) → ℕ → ℕ → Text → ℕ → Queue → List Mutation × Queue
unfolding due_ids
claim_due_mutations returning locked account_id limit worker now q =
    let ids = due_ids locked account_id limit now q in
    (
      returning (map (claim worker now) (select (λ m. member m.id ids) q.rows)),
      record q { rows = update_where (λ m. member m.id ids) (claim worker now) q.rows },
    )

unfoldable pub mutation_succeeded : ℕ → Queue → Queue
mutation_succeeded id q = record q {
  rows =
      update_where (λ m. m.id == id)
        (λ m. record m {
          status = succeeded;
          locked_by = none;
          locked_at = none;
          last_error = none;
        })
        q.rows;
}

unfoldable pub fail_row : ℕ → ℕ → Text → ℕ → Mutation → Mutation
fail_row now retry_after message max_attempts m = record m {
  status = if leb max_attempts m.attempts then failed else pending;
  next_attempt_at = some (now + retry_after);
  last_error = some message;
  locked_by = none;
  locked_at = none;
}

unfoldable pub mutation_failed : ℕ → ℕ → Text → ℕ → ℕ → Queue → Queue
unfolding fail_row
mutation_failed id now message retry_after max_attempts q = record q {
  rows = update_where (λ m. m.id == id) (fail_row now retry_after message max_attempts) q.rows;
}

-- locked_at < now() - older_than; a NULL compares as not true.
abbrev pub is_stale : ℕ → ℕ → Option ℕ → Bool
is_stale older_than now none = false
is_stale older_than now (some t) = ltb (t + older_than) now

-- The new table, and how many rows it affects.
unfoldable pub release_stale_mutations : ℕ → ℕ → Queue → ℕ × Queue
release_stale_mutations older_than now q =
    let stale = λ (m : Mutation). is_in_flight m.status && is_stale older_than now m.locked_at in
    (
      count stale q.rows,
      record q {
        rows =
            update_where stale
              (λ m. record m { status = pending; locked_by = none; locked_at = none }) q.rows;
      },
    )

unfoldable pub count_pending_mutations : ℕ → Queue → ℕ
count_pending_mutations account_id q =
    count (λ m. m.account_id == account_id && is_waiting m.status) q.rows
