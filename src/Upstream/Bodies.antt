-- ===== src/Upstream/Bodies.antt =====
-- internal/upstream/fetchbody.go: FetchBodies, and withDeadline and checkUsable of client.go. What
-- the server sends, the context and the caller's handler are parameters; reading a literal yields
-- its octets or the error that broke it off, whether the handler or the drain behind it reads.
pub mod Keeps
use imapped.Base.{
  ℕ, Bool, true, false, ◌&&◌, Option, none, some, List, [], ◌∷◌, ◌++◌, if◌then◌else◌,
}
use imapped.Base.Int64
use imapped.Base.Text
use imapped.Base.Text.{Text, codes}
use imapped.Upstream.Errors.{Error, leaf, wrap, poisoned, message_too_large, classify, Result}

pub record Literal : Type 0 where
  pub size : ℕ
  pub content : Result (List ℕ)

-- The items of a FETCH response. A body section may come without its literal.
pub data FetchItem : Type 0 where
  item_uid : ℕ → FetchItem
  item_size : ℕ → FetchItem
  item_body : Option Literal → FetchItem
  item_other : FetchItem

-- A connection in the world `W`: a FETCH command yields messages, and its Close an error.
pub record Line (Set W : Type 0) : Type 0 where
  pub usable : W → Bool
  pub ctx_err : W → Option Error
  pub describe_deadline : W → Text
  pub fetch : Set → W → List (List FetchItem) × W
  pub close : W → Option Error × W

abbrev pub not_usable : Error
not_usable = leaf poisoned (codes "connection was abandoned at a deadline and cannot be reused")

unfoldable pub too_large : ℕ → Error
too_large size =
    wrap [] (leaf message_too_large (codes "message exceeds the maximum size"))
      (codes ": " ++ (Text.decimal size ++ codes " bytes"))

-- The later error of two.
abbrev pub latest : Option Error → Option Error → Option Error
latest e none = e
latest e (some f) = some f

-- What is left of a call: its error, what its caller owns, and the world.
abbrev pub Left : Type 0 → Type 0 → Type 0
Left S W = Option Error × S × W

module _ {S W : Type 0} where
  module _ {Set : Type 0} (line : Line Set W) where
    -- The command is closed on every path; only behind the last message is the error reported.
    unfoldable pub finish : Left S W → Left S W
    finish (some e, s, w) = (some e, s, (line.close w).1)
    finish (none, s, w) =
        let c = line.close w in
        (
          elim c.0 [
            | none ↦ none
            | some e ↦ some (wrap (codes "fetching bodies: ") (classify e) [])
          ],
          s,
          (line.close c.1).1,
        )

    -- An error after the context is done is reported as the context's.
    unfoldable pub name_deadline : Left S W → Left S W
    name_deadline (none, s, w) = (none, s, w)
    name_deadline (some e, s, w) = elim (line.ctx_err w) [
      | none ↦ (some e, s, w)
      | some c ↦ (some (wrap [] c (codes " after " ++ line.describe_deadline w)), s, w)
    ]

  module _ (max_size : ℕ) (handler : ℕ → Literal → S → W → Left S W) where
    unfoldable pub handle_literal : ℕ → Literal → Option Error → S → W → Left S W
    handle_literal uid body e s w =
        if Int64.lt 0 max_size && Int64.lt max_size body.size
        then (some (too_large body.size), s, w)
        else let r = handler uid body s w in (latest e r.0, r.1, r.2)

    -- The loop over the items of one message, with the UID and the error so far. The variable
    -- `handled` makes no difference to what is returned, and `size` goes nowhere.
    unfoldable pub handle_body_message : List FetchItem → ℕ → Option Error → S → W → Left S W
    unfolding handle_literal
    handle_body_message [] uid e s w = (e, s, w)
    handle_body_message (item_uid u ∷ items) uid e s w = handle_body_message items u e s w
    handle_body_message (item_size n ∷ items) uid e s w = handle_body_message items uid e s w
    handle_body_message (item_other ∷ items) uid e s w = handle_body_message items uid e s w
    handle_body_message (item_body none ∷ items) uid e s w = handle_body_message items uid e s w
    handle_body_message (item_body (some body) ∷ items) uid e s w =
        let r = handle_literal uid body e s w in handle_body_message items uid r.0 r.1 r.2

    unfoldable pub each_message : List (List FetchItem) → S → W → Left S W
    unfolding handle_body_message
    each_message [] s w = (none, s, w)
    each_message (m ∷ messages) s w =
        let r = handle_body_message m 0 none s w in
        elim r.0 [ none ↦ each_message messages r.1 r.2 | some e ↦ r ]

    unfoldable pub fetch_bodies : {Set : Type 0} → Line Set W → Set → S → W → Left S W
    unfolding each_message finish name_deadline
    fetch_bodies line uids s w =
        if line.usable w
        then elim (line.ctx_err w) [
          | some e ↦ (some e, s, w)
          | none ↦
              let answer = line.fetch uids w in
              name_deadline line (finish line (each_message answer.0 s answer.1))
        ]
        else (some not_usable, s, w)
