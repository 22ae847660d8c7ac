-- ===== src/Upstream/Bodies/Keeps.antt =====
-- What a FETCH of bodies does to the state of its handler is what the handler's calls do to it.
use imapped.Base.{
  ℕ, ◌≡◌, refl, inl, inr, ◌&&◌, Option, none, some, List, [], ◌∷◌, All, Bool-cases, Option-cases,
}
use imapped.Base.Int64
use imapped.Upstream.Errors.{Error}
use imapped.Upstream.Bodies.{
  Literal, FetchItem, item_uid, item_size, item_body, item_other, Line, Left, handle_literal,
  handle_body_message, each_message, finish, name_deadline, fetch_bodies,
}

-- A UID that an item names meets a condition.
abbrev pub Names : (ℕ → Type 0) → FetchItem → Type 0
Names Q (item_uid u) = Q u
Names Q _ = Unit

pub Names-imp :
    {Q R : ℕ → Type 0} → ((u : ℕ) → Q u → R u) → (item : FetchItem) → Names Q item → Names R item
Names-imp f (item_uid u) q = f u q
Names-imp f (item_size n) q = tt
Names-imp f (item_body b) q = tt
Names-imp f item_other q = tt

pub All-Names :
    {Q : ℕ → Type 0}
    → ((u : ℕ) → Q u)
    → (messages : List (List FetchItem)) → All (All (Names Q)) messages
All-Names h [] = tt
All-Names {Q} h (m ∷ messages) = (items m, All-Names h messages)
  where
    items : (is : List FetchItem) → All (Names Q) is
    items [] = tt
    items (item_uid u ∷ is) = (h u, items is)
    items (item_size n ∷ is) = (tt, items is)
    items (item_body b ∷ is) = (tt, items is)
    items (item_other ∷ is) = (tt, items is)

module _ {S W Set : Type 0} (line : Line Set W) where
  name_deadline_state : (r : Left S W) → (name_deadline line r).1 ≡ r.1
  unfolding name_deadline
  name_deadline_state (none, s, w) = refl
  name_deadline_state (some e, s, w) = elim (Option-cases (line.ctx_err w)) [
    | inl k ↦ rw (k, name_deadline) refl
    | inr k ↦ rw (k.1, name_deadline) refl
  ]

  finish_state : (r : Left S W) → (finish line r).1 ≡ r.1
  unfolding finish
  finish_state (none, s, w) = refl
  finish_state (some e, s, w) = refl

module _ {S W : Type 0} (max_size : ℕ) (handler : ℕ → Literal → S → W → Left S W) (Q : ℕ → Type 0)
    (P : S → Type 0)
    (step : (uid : ℕ) (body : Literal) (s : S) (w : W) → Q uid → P s → P (handler uid body s w).1)
    (zero_named : Q 0) where
  literal-keeps :
      (uid : ℕ) (body : Literal) (e : Option Error) (s : S) (w : W)
      → Q uid
      → P s
      → P (handle_literal max_size handler uid body e s w).1
  unfolding handle_literal
  literal-keeps uid body e s w q h =
      elim (Bool-cases (Int64.lt 0 max_size && Int64.lt max_size body.size)) [
        | inl k ↦ rw k h
        | inr k ↦ rw k (step uid body s w q h)
      ]

  message-keeps :
      (items : List FetchItem) (uid : ℕ) (e : Option Error) (s : S) (w : W)
      → All (Names Q) items
      → Q uid
      → P s
      → P (handle_body_message max_size handler items uid e s w).1
  unfolding handle_body_message
  message-keeps [] uid e s w n q h = h
  message-keeps (item_uid u ∷ items) uid e s w n q h = message-keeps items u e s w n.1 n.0 h
  message-keeps (item_size m ∷ items) uid e s w n q h = message-keeps items uid e s w n.1 q h
  message-keeps (item_other ∷ items) uid e s w n q h = message-keeps items uid e s w n.1 q h
  message-keeps (item_body none ∷ items) uid e s w n q h = message-keeps items uid e s w n.1 q h
  message-keeps (item_body (some body) ∷ items) uid e s w n q h =
      let r = handle_literal max_size handler uid body e s w in
      message-keeps items uid r.0 r.1 r.2 n.1 q (literal-keeps uid body e s w q h)

  each_message-keeps :
      (messages : List (List FetchItem)) (s : S) (w : W)
      → All (All (Names Q)) messages
      → P s
      → P (each_message max_size handler messages s w).1
  unfolding each_message
  each_message-keeps [] s w n h = h
  each_message-keeps (m ∷ messages) s w n h =
      let r = handle_body_message max_size handler m 0 none s w in
      let k = message-keeps m 0 none s w n.0 zero_named h in
      elim (Option-cases r.0) [
        | inl e ↦ rw (e, each_message) (each_message-keeps messages r.1 r.2 n.1 k)
        | inr e ↦ rw (e.1, each_message) k
      ]

  module _ {Set : Type 0} (line : Line Set W) where
    pub fetch_bodies-keeps :
        (uids : Set) (s : S) (w : W)
        → All (All (Names Q)) (line.fetch uids w).0
        → P s
        → P (fetch_bodies max_size handler line uids s w).1
    unfolding fetch_bodies
    fetch_bodies-keeps uids s w n h = elim (Bool-cases (line.usable w)) [
      | inr k ↦ rw k h
      | inl k ↦ elim (Option-cases (line.ctx_err w)) [
        | inr e ↦ rw (k, e.1) h
        | inl e ↦
            rw (k, e)
              (rw (name_deadline_state line _) (
                rw (finish_state line _)
                  (each_message-keeps (line.fetch uids w).0 s (line.fetch uids w).1 n h)))
      ]
    ]
