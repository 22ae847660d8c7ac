-- ===== src/Syncer/Replay.antt =====
-- internal/syncer/mutations.go: ReplayMutations and applyMutation, over the queue of
-- internal/store/mutations.go and a session of internal/upstream/session.go. The connection, JSON,
-- the clock, the random source, and what the database does besides its statements are parameters.
pub mod Settled
mod Tests
use imapped.Base.{
  ℕ, zero, suc, Bool, true, false, not, Option, none, some, List, [], ◌∷◌, ◌++◌, ◌==◌, is_empty,
  if◌then◌else◌,
}
use imapped.Base.Int64
use imapped.Base.Text
use imapped.Base.Text.{Text, codes}
use imapped.Store.Mutations.{
  MutationType, store_flags, other_type, Mutation, FlagPayload, Queue, claim_due_mutations,
  mutation_succeeded, mutation_failed, count_pending_mutations,
}
use imapped.Upstream.Errors.{Error, leaf, plain, wrap, error_text, severity_of, Result, ok, err}
use imapped.Upstream.Retry.{backoff}
use imapped.Upstream.Session.{
  Server, Session, do_command, select_mailbox, close_session, is_fatal_account,
}
use imapped.Syncer.Account.{Account}

-- `store_err` is asked before each statement; `locked` and `returning` are those of the claim.
pub record Upstream (C W : Type 0) : Type 0 where
  pub server : Server C W
  pub get_account : W → Result Account × W
  pub credentials : Account → Option Error
  pub send_flags : C → ℕ → List Text → W → Result Unit × W
  pub unmarshal : Text → Result FlagPayload
  pub store_err : W → Option Error × W
  pub now : W → ℕ × W
  pub rand : W → (ℕ → ℕ) × W
  pub locked : W → ℕ → Bool
  pub returning : List Mutation → List Mutation

pub record Limits : Type 0 where
  pub retry_attempts : ℕ
  pub retry_base_delay : ℕ
  pub retry_max_delay : ℕ

abbrev pub max_mutation_attempts : ℕ
max_mutation_attempts = 8

-- The session, the variable `selectedMailbox`, and the world.
pub record Link (C W : Type 0) : Type 0 where
  pub session : Session C
  pub selected_mailbox : Text
  pub world : W

-- What a pass changes.
pub record Replay (C W : Type 0) : Type 0 where
  pub queue : Queue
  pub link : Link C W
  pub applied : ℕ

-- A pass goes on, or returns an error or none.
pub data Flow (C W : Type 0) : Type 0 where
  goes_on : Replay C W → Flow C W
  returns : Option Error → Replay C W → Flow C W

abbrev result_of : {A : Type 0} → Result A → Option Error
result_of (ok a) = none
result_of (err e) = some e

module _ {C W : Type 0} (upstream : Upstream C W) (limits : Limits) where
  open upstream use {
    server, get_account, credentials, send_flags, unmarshal, store_err, now, rand, locked,
    returning,
  }

  unfoldable pub send : FlagPayload → Link C W → Option Error × Link C W
  send payload l =
      let r =
        do_command server (λ c. send_flags c payload.upstream_uid payload.flags)
          limits.retry_attempts (codes "store flags") l.session l.world in
      (result_of r.0, record l { session = r.1; world = r.2 })

  -- A SELECT only for another mailbox than the last one.
  unfoldable pub select_and_send : FlagPayload → Link C W → Option Error × Link C W
  unfolding send
  select_and_send payload l =
      if Text.same l.selected_mailbox payload.mailbox
      then send payload l
      else let r =
          select_mailbox server limits.retry_attempts payload.mailbox false l.session l.world in
        let l' = record l { session = r.1; world = r.2 } in
        elim r.0 [
          | err e ↦ (some e, l')
          | ok d ↦ send payload (record l' { selected_mailbox = payload.mailbox })
        ]

  unfoldable pub apply_mutation : Mutation → Link C W → Option Error × Link C W
  unfolding select_and_send
  apply_mutation m l = elim m.kind [
    | store_flags ↦ elim (unmarshal m.payload) [
      | err e ↦ (some (wrap (codes "decoding the change: ") e []), l)
      | ok payload ↦ if payload.upstream_uid == 0 then (none, l) else select_and_send payload l
    ]
    | other_type t ↦
        (some (leaf plain (codes "unsupported change type \"" ++ (t ++ codes "\""))), l)
  ]

  -- A statement fails and changes nothing, or is carried out.
  unfoldable pub run : (Queue → Queue) → Replay C W → Option Error × Replay C W
  run f s =
      let r = store_err s.link.world in
      let t = record s { link = record s.link { world = r.1 } } in
      elim r.0 [ some e ↦ (some e, t) | none ↦ (none, record t { queue = f s.queue }) ]

  unfoldable pub settle_success : ℕ → Replay C W → Flow C W
  unfolding run
  settle_success id s =
      let r = run (mutation_succeeded id) s in
      elim r.0 [
        | some e ↦ returns (some e) r.1
        | none ↦ goes_on (record r.1 { applied = suc r.1.applied })
      ]

  unfoldable pub settle_failure : Mutation → Error → Replay C W → Flow C W
  unfolding run
  settle_failure m e s =
      let drawn = rand s.link.world in
      let delay = backoff drawn.0 m.attempts limits.retry_base_delay limits.retry_max_delay in
      let clock = now drawn.1 in
      let t = record s { link = record s.link { world = clock.1 } } in
      let r = run (mutation_failed m.id clock.0 (error_text e) delay max_mutation_attempts) t in
      elim r.0 [
        | some x ↦ returns (some x) r.1
        | none ↦ if is_fatal_account (severity_of e) then returns (some e) r.1 else goes_on r.1
      ]

  unfoldable pub replay_one : Mutation → Replay C W → Flow C W
  unfolding apply_mutation settle_success settle_failure
  replay_one m s =
      let r = apply_mutation m s.link in
      let t = record s { link = r.1 } in
      elim r.0 [ none ↦ settle_success m.id t | some e ↦ settle_failure m e t ]

  unfoldable pub replay_batch : List Mutation → Replay C W → Flow C W
  unfolding replay_one
  replay_batch [] s = goes_on s
  replay_batch (m ∷ batch) s = elim (replay_one m s) [
    | goes_on t ↦ replay_batch batch t
    | returns e t ↦ returns e t
  ]

  -- One turn of the loop.
  unfoldable pub replay_turn : ℕ → Text → Replay C W → Flow C W
  unfolding replay_batch
  replay_turn account_id worker s = elim (Server.ctx_err server s.link.world) [
    | some e ↦ returns (some e) s
    | none ↦
        let clock = now s.link.world in
        let asked = store_err clock.1 in
        let t = record s { link = record s.link { world = asked.1 } } in
        elim asked.0 [
          | some e ↦ returns (some e) t
          | none ↦
              let claimed =
                claim_due_mutations returning (locked asked.1) account_id 50 worker clock.0
                  s.queue in
              let u = record t { queue = claimed.1 } in
              if is_empty claimed.0 then returns none u else replay_batch claimed.0 u
        ]
  ]

  -- The loop; no result is a loop that has not ended within the fuel.
  unfoldable pub replay_loop : ℕ → ℕ → Text → Replay C W → Option (Option Error × Replay C W)
  unfolding replay_turn
  replay_loop zero account_id worker s = none
  replay_loop (suc fuel) account_id worker s = elim (replay_turn account_id worker s) [
    | goes_on t ↦ replay_loop fuel account_id worker t
    | returns e t ↦ some (e, t)
  ]

  -- A fresh session, closed when the loop ends.
  unfoldable pub replay_session : ℕ → ℕ → Text → Queue → W → Option (Option Error × Replay C W)
  unfolding replay_loop
  replay_session fuel account_id worker q w =
      elim (replay_loop fuel account_id worker (record {
        queue = q;
        link = record {
          session = record { client = none; selected = []; read_only = false };
          selected_mailbox = [];
          world = w;
        };
        applied = 0;
      })) [
        | none ↦ none
        | some r ↦
            let closed = close_session server r.1.link.session r.1.link.world in
            some
              (r.0, record r.1 { link = record r.1.link { session = closed.0; world = closed.1 } })
      ]

  abbrev idle : Option Error → Queue → W → Option (Option Error × Replay C W)
  idle e q w = some (
    e,
    record {
      queue = q;
      link = record {
        session = record { client = none; selected = []; read_only = false };
        selected_mailbox = [];
        world = w;
      };
      applied = 0;
    },
  )

  unfoldable pub replay_mutations : ℕ → ℕ → Text → Queue → W → Option (Option Error × Replay C W)
  unfolding replay_session
  replay_mutations fuel account_id worker q w =
      let asked = store_err w in
      elim asked.0 [
        | some e ↦ idle (some e) q asked.1
        | none ↦
            if count_pending_mutations account_id q == 0
            then idle none q asked.1
            else let got = get_account asked.1 in
              elim got.0 [
                | err e ↦ idle (some e) q got.1
                | ok account ↦ elim account.active [
                  | false ↦ idle none q got.1
                  | true ↦ elim (credentials account) [
                    | some e ↦ idle (some e) q got.1
                    | none ↦ replay_session fuel account_id worker q got.1
                  ]
                ]
              ]
      ]
