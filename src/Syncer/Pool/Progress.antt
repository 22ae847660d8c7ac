-- ===== src/Syncer/Pool/Progress.antt =====
-- Which body passes can go on.
use imapped.Base.{
  ℕ, zero, suc, ◌≡◌, refl, ◌∙◌, sym, subst, true, Option, none, some, List, [], ◌∷◌, ◌⊎◌, All, inl,
  inr,
}
use imapped.Syncer.Planner.{SizedUid}
use imapped.Syncer.Pool.{
  BodyPass, Producer, claiming, waiting, sending, stopped, Worker, opening, receiving, fetching,
  draining, ended, Pool, Move, produce, hear, poll, cancel, metadata_ends, work, elsewhere, move,
  run, worker_at, or_stay, produce_move, hear_move, poll_move, work_move, receive,
}
use imapped.Syncer.Pool.Handover.{IsNotCancel}

abbrev pub IsEnded : {C : Type 0} → Worker C → Type 0
IsEnded ended = Unit
IsEnded opening = ⊥
IsEnded (receiving s) = ⊥
IsEnded (fetching s b left attempt) = ⊥
IsEnded (draining s e) = ⊥

-- A goroutine of the pass itself moves, by no timer and no cancellation.
abbrev pub IsOwn : {W : Type 0} → Move W → Type 0
IsOwn produce = Unit
IsOwn hear = Unit
IsOwn (work i) = Unit
IsOwn poll = ⊥
IsOwn cancel = ⊥
IsOwn metadata_ends = ⊥
IsOwn (elsewhere db w) = ⊥

-- Every goroutine has returned.
abbrev pub IsStopped : Producer → Type 0
IsStopped (stopped e) = Unit
IsStopped (claiming finished) = ⊥
IsStopped waiting = ⊥
IsStopped (sending finished bs) = ⊥

-- The producer offers a batch.
abbrev pub IsOffering : Producer → Type 0
IsOffering (sending finished (b ∷ bs)) = Unit
IsOffering (sending finished []) = ⊥
IsOffering (claiming finished) = ⊥
IsOffering waiting = ⊥
IsOffering (stopped e) = ⊥

-- A worker that has not returned, with its place.
live :
    {C : Type 0} (ws : List (Worker C))
    → All IsEnded ws ⊎ ((i : ℕ) × (w : Worker C) × (worker_at i ws ≡ some w) × (IsEnded w → ⊥))
live [] = inl tt
live (opening ∷ ws) = inr (0, opening, refl, λ h. h)
live (receiving s ∷ ws) = inr (0, receiving s, refl, λ h. h)
live (fetching s b left attempt ∷ ws) = inr (0, fetching s b left attempt, refl, λ h. h)
live (draining s e ∷ ws) = inr (0, draining s e, refl, λ h. h)
live (ended ∷ ws) = elim (live ws) [
  | inl h ↦ inl (tt, h)
  | inr (i, w, at_i, lives) ↦ inr (suc i, w, at_i, lives)
]

abbrev pub Moves : {A : Type 0} → Option A → Type 0
Moves none = ⊥
Moves (some q) = Unit

module _ {C W : Type 0} (pass : BodyPass C W) where
  -- Some goroutine of the pass can run on.
  abbrev pub CanGoOn : Pool C W → Type 0
  CanGoOn p = (m : Move W) × IsOwn m × Moves (move pass m p)

  hear-Moves : (p : Pool C W) → p.metadata_done ≡ true → Moves (hear_move pass waiting p)
  unfolding hear_move
  hear-Moves p d = rw d tt

  -- Where a worker waits for a batch, the producer can move, or the worker has what it waits for.
  meets :
      (a : Producer) (taken : List SizedUid → Pool C W) (closed p : Pool C W)
      → p.metadata_done ≡ true
      → Moves (produce_move pass a p)
        ⊎ (Moves (hear_move pass a p) ⊎ Moves (receive pass a taken closed p))
  unfolding produce_move receive
  meets (claiming f) taken closed p d = inl tt
  meets (sending f []) taken closed p d = inl tt
  meets (sending f (b ∷ bs)) taken closed p d = inr (inr tt)
  meets waiting taken closed p d = inr (inl (hear-Moves p d))
  meets (stopped e) taken closed p d = inr (inr tt)

  turn :
      (i : ℕ) (w : Worker C) (p : Pool C W)
      → p.metadata_done ≡ true
      → (IsEnded w → ⊥)
      → Moves (produce_move pass p.producer p)
        ⊎ (Moves (hear_move pass p.producer p) ⊎ Moves (work_move pass i (some w) p))
  unfolding work_move
  turn i opening p d l = inr (inr tt)
  turn i (fetching s b left attempt) p d l = inr (inr tt)
  turn i ended p d l = absurd (l tt)
  turn i (receiving s) p d l = meets p.producer _ _ p d
  turn i (draining s e) p d l = meets p.producer _ _ p d

  live_goes_on :
      (i : ℕ) (w : Worker C) (p : Pool C W)
      → p.metadata_done ≡ true
      → worker_at i p.workers ≡ some w
      → (IsEnded w → ⊥)
      → CanGoOn p
  unfolding move
  live_goes_on i w p d wi l = elim (turn i w p d l) [
    | inl h ↦ (produce, tt, h)
    | inr (inl h) ↦ (hear, tt, h)
    | inr (inr h) ↦ (work i, tt, subst (λ v. Moves (work_move pass i v p)) (sym wi) h)
  ]

  -- Without workers the producer goes on until it has something to send.
  alone :
      (a : Producer) (p : Pool C W)
      → p.metadata_done ≡ true
      → Moves (produce_move pass a p) ⊎ (Moves (hear_move pass a p) ⊎ (IsStopped a ⊎ IsOffering a))
  unfolding produce_move
  alone (claiming f) p d = inl tt
  alone (sending f []) p d = inl tt
  alone (sending f (b ∷ bs)) p d = inr (inr (inr tt))
  alone waiting p d = inr (inl (hear-Moves p d))
  alone (stopped e) p d = inr (inr (inl tt))

  alone_goes_on :
      (p : Pool C W)
      → p.metadata_done ≡ true
      → CanGoOn p ⊎ (IsStopped p.producer ⊎ IsOffering p.producer)
  unfolding move
  alone_goes_on p d = elim (alone p.producer p d) [
    | inl h ↦ inl (produce, tt, h)
    | inr (inl h) ↦ inl (hear, tt, h)
    | inr (inr h) ↦ inr h
  ]

  -- Once the metadata pass is over, one of three holds: a goroutine of the pass can run on, with no
  -- timer and no cancellation; or every goroutine has returned; or every worker has returned while
  -- the producer still offers a batch.
  pub never_waits :
      (p : Pool C W)
      → p.metadata_done ≡ true
      → CanGoOn p
        ⊎ ((IsStopped p.producer × All IsEnded p.workers)
            ⊎ (IsOffering p.producer × All IsEnded p.workers))
  never_waits p d = elim (live p.workers) [
    | inr (i, w, wi, l) ↦ inl (live_goes_on i w p d wi l)
    | inl gone ↦ elim (alone_goes_on p d) [
      | inl h ↦ inl h
      | inr (inl h) ↦ inr (inl (h, gone))
      | inr (inr h) ↦ inr (inr (h, gone))
    ]
  ]

  ended_at :
      (i : ℕ) (ws : List (Worker C))
      → All IsEnded ws
      → (worker_at i ws ≡ none) ⊎ (worker_at i ws ≡ some ended)
  ended_at i [] h = inl refl
  ended_at zero (ended ∷ ws) h = inr refl
  ended_at zero (opening ∷ ws) h = absurd h.0
  ended_at zero (receiving s ∷ ws) h = absurd h.0
  ended_at zero (fetching s b left attempt ∷ ws) h = absurd h.0
  ended_at zero (draining s e ∷ ws) h = absurd h.0
  ended_at (suc i) (w ∷ ws) h = ended_at i ws h.1

  no_work :
      (i : ℕ) (p : Pool C W)
      → All IsEnded p.workers
      → work_move pass i (worker_at i p.workers) p ≡ none
  unfolding work_move
  no_work i p h = elim (ended_at i p.workers h) [
    | inl e ↦ rw (e, work_move) refl
    | inr e ↦ rw (e, work_move) refl
  ]

  -- The two parts of the pass that only its own goroutines change.
  abbrev Stays : Pool C W → Pool C W → Type 0
  Stays p q = (q.producer ≡ p.producer) × (q.workers ≡ p.workers)

  no_produce :
      (a : Producer) (p : Pool C W)
      → IsOffering a
      → (produce_move pass a p ≡ none) × (hear_move pass a p ≡ none) × (poll_move pass a p ≡ none)
  unfolding produce_move hear_move poll_move
  no_produce (sending f (b ∷ bs)) p h = (refl, refl, refl)
  no_produce (sending f []) p h = absurd h
  no_produce (claiming f) p h = absurd h
  no_produce waiting p h = absurd h
  no_produce (stopped e) p h = absurd h

  stays :
      (m : Move W) (p : Pool C W)
      → IsNotCancel m
      → IsOffering p.producer
      → All IsEnded p.workers
      → Stays p (or_stay pass p (move pass m p))
  unfolding move
  stays produce p n o g = rw (no_produce p.producer p o).0 (refl, refl)
  stays hear p n o g = rw (no_produce p.producer p o).1 (refl, refl)
  stays poll p n o g = rw (no_produce p.producer p o).2 (refl, refl)
  stays metadata_ends p n o g = (refl, refl)
  stays (elsewhere db w) p n o g = (refl, refl)
  stays cancel p n o g = absurd n
  stays (work i) p n o g = rw (no_work i p g) (refl, refl)

  -- A pass whose workers have all returned while the producer offers a batch stays as it is, under
  -- every schedule, until its context is cancelled.
  pub stranded :
      (ms : List (Move W)) (p : Pool C W)
      → All IsNotCancel ms
      → IsOffering p.producer
      → All IsEnded p.workers
      → ((run pass ms p).producer ≡ p.producer) × ((run pass ms p).workers ≡ p.workers)
  unfolding run
  stranded [] p n o g = (refl, refl)
  stranded (m ∷ ms) p n o g =
      let q = or_stay pass p (move pass m p) in
      let s = stays m p n.0 o g in
      let r = stranded ms q n.1 (subst IsOffering (sym s.0) o) (subst (All IsEnded) (sym s.1) g) in
      (r.0 ∙ s.0, r.1 ∙ s.1)
