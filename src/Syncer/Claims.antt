-- ===== src/Syncer/Claims.antt =====
-- internal/syncer/claims.go: the table that maps a claimed UID of a mailbox to its database row.
-- Each method holds the table's lock throughout, so concurrent workers are a sequence of calls.
pub mod Traces
use imapped.Base.{
  ℕ, suc, ◌≡◌, Bool, true, false, ◌&&◌, ◌||◌, Option, none, some, List, [], ◌∷◌, ◌==◌,
  if◌then◌else◌, ◌+◌,
}

-- store.PendingBody
pub record PendingBody : Type 0 where
  pub mailbox_message_id : ℕ
  pub message_id : ℕ
  pub upstream_uid : ℕ
  pub size : ℕ
  pub attempts : ℕ

pub record ClaimKey : Type 0 where
  pub mailbox_id : ℕ
  pub uid : ℕ

unfoldable pub same_key : ClaimKey → ClaimKey → Bool
same_key a b = a.mailbox_id == b.mailbox_id && a.uid == b.uid

-- The map of the table.
abbrev pub ClaimTable : Type 0
ClaimTable = List (ClaimKey × PendingBody)

unfoldable pub find : ClaimKey → ClaimTable → Option PendingBody
find k [] = none
find k ((j, c) ∷ t) = if same_key j k then some c else find k t

-- delete(t.claims, key)
unfoldable pub delete : ClaimKey → ClaimTable → ClaimTable
delete k [] = []
delete k ((j, c) ∷ t) = let rest = delete k t in if same_key j k then rest else (j, c) ∷ rest

-- t.claims[key] = claim
unfoldable pub assign : ClaimKey → PendingBody → ClaimTable → ClaimTable
assign k c t = (k, c) ∷ delete k t

-- The claims of one mailbox, in the order in which the Go map yields them.
unfoldable pub remember : ℕ → List (ℕ × PendingBody) → ClaimTable → ClaimTable
remember mailbox_id [] t = t
remember mailbox_id ((uid, c) ∷ cs) t =
    remember mailbox_id cs (assign (record { mailbox_id = mailbox_id; uid = uid }) c t)

-- A claim is returned and removed.
unfoldable pub take_claim : ℕ → ℕ → ClaimTable → Option PendingBody × ClaimTable
take_claim mailbox_id uid t =
    let key : ClaimKey = record { mailbox_id = mailbox_id; uid = uid } in
    elim (find key t) [ none ↦ (none, t) | some c ↦ (some c, delete key t) ]

-- What the producer and the workers do to the shared table.
pub data Call : Type 0 where
  remembers : ℕ → List (ℕ × PendingBody) → Call
  takes : ℕ → ℕ → Call

unfoldable pub after : Call → ClaimTable → ClaimTable
unfolding take_claim
after (remembers m cs) t = remember m cs t
after (takes m u) t = (take_claim m u t).1

-- The claims that a run of calls hands out for a key.
unfoldable pub granted : ClaimKey → List Call → ClaimTable → ℕ
granted k [] t = 0
granted k (remembers m cs ∷ calls) t = granted k calls (remember m cs t)
granted k (takes m u ∷ calls) t =
    let rest = granted k calls (take_claim m u t).1 in
    if same_key (record { mailbox_id = m; uid = u }) k
    then elim (take_claim m u t).0 [ none ↦ rest | some c ↦ suc rest ]
    else rest

-- The claims for a key that a batch of claims, or a run of calls, remembers.
unfoldable pub mentions : ClaimKey → ℕ → List (ℕ × PendingBody) → ℕ
mentions k m [] = 0
mentions k m ((u, c) ∷ cs) =
    let rest = mentions k m cs in
    if same_key (record { mailbox_id = m; uid = u }) k then suc rest else rest

unfoldable pub remembered : ClaimKey → List Call → ℕ
unfolding mentions
remembered k [] = 0
remembered k (takes m u ∷ calls) = remembered k calls
remembered k (remembers m cs ∷ calls) = mentions k m cs + remembered k calls
