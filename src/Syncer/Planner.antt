-- ===== src/Syncer/Planner.antt =====
-- internal/syncer/planner.go: how the body pass and the metadata pass group their FETCH commands.
-- Sizes are int64 values as bit patterns. The sets of the IMAP library are an interface.
pub mod Batches
pub mod Budget
pub mod Ranges
use imapped.Base.{
  ℕ, suc, ◌+◌, ◌-◌, ◌≡◌, ◌↔◌, ◌⊎◌, Bool, true, false, ◌&&◌, ◌||◌, Option, none, some, List, [], ◌∷◌,
  ◌++◌, ltb, leb, ◌==◌, if◌then◌else◌, length, is_empty, take, drop, map,
}
use imapped.Base.Int64

-- UIDs and sizes
pub record SizedUid : Type 0 where
  pub uid : ℕ
  pub size : ℕ

pub record BatchBudget : Type 0 where
  pub max_bytes : ℕ
  pub max_messages : ℕ
  pub solo_above : ℕ

-- The variables that the loop of PlanBatches and its closure `flush` share.
pub record Plan : Type 0 where
  pub batches : List (List SizedUid)
  pub current : List SizedUid
  pub bytes : ℕ

unfoldable pub flush : Plan → Plan
flush p =
    if is_empty p.current
    then p
    else record { batches = p.batches ++ p.current ∷ []; current = []; bytes = 0 }

-- `budget.MaxMessages < 1` is raised to 1.
unfoldable pub at_least_one : ℕ → ℕ
at_least_one n = if Int64.lt n 1 then 1 else n

unfoldable pub is_solo : BatchBudget → SizedUid → Bool
is_solo budget msg = Int64.lt 0 budget.solo_above && Int64.lt budget.solo_above msg.size

-- `overBytes || overCount`, read with a batch that is not empty
unfoldable pub is_over : BatchBudget → Plan → SizedUid → Bool
is_over budget p msg =
    Int64.lt 0 budget.max_bytes && Int64.lt budget.max_bytes (Int64.add p.bytes msg.size)
    || leb budget.max_messages (length p.current)

unfoldable pub add_message : Plan → SizedUid → Plan
add_message p msg = record p { current = p.current ++ msg ∷ []; bytes = Int64.add p.bytes msg.size }

-- An outsized message gets a batch of its own.
unfoldable pub send_alone : Plan → SizedUid → Plan
send_alone p msg = let q = flush p in record q { batches = q.batches ++ (msg ∷ []) ∷ [] }

-- The batch is closed first where the message would breach the budget.
unfoldable pub make_room : BatchBudget → Plan → SizedUid → Plan
make_room budget p msg =
    if is_empty p.current then p else if is_over budget p msg then flush p else p

-- One round of the loop.
unfoldable pub plan_step : BatchBudget → Plan → SizedUid → Plan
plan_step budget p msg =
    if is_solo budget msg then send_alone p msg else add_message (make_room budget p msg) msg

unfoldable pub plan_loop : BatchBudget → Plan → List SizedUid → Plan
plan_loop budget p [] = p
plan_loop budget p (msg ∷ msgs) = plan_loop budget (plan_step budget p msg) msgs

unfoldable pub plan_batches : List SizedUid → BatchBudget → List (List SizedUid)
plan_batches msgs budget =
    if is_empty msgs
    then []
    else (flush (
        plan_loop (record budget { max_messages = at_least_one budget.max_messages })
          (record { batches = []; current = []; bytes = 0 }) msgs)).batches
