-- ===== src/Tail/Hub.antt =====
-- internal/tail/hub.go: the fan-out of entries to subscribers with bounded buffers.
pub mod Stream
pub mod Isolation
use logdoc.Common.{
  ℕ, zero, suc, ◌+◌, Bool, true, false, ◌&&◌, Option, none, some, List, [], ◌∷◌, ◌++◌, ltb, ◌==◌,
  if◌then◌else◌, length, map,
}
use logdoc.Common.Platform.{Platform}
use logdoc.Model.{Entry}
use logdoc.Query.Plan.{Plan, matches}

abbrev pub subscriber_buffer : ℕ
subscriber_buffer = 1024

-- `subscriber`, named by a number as the map names it by its address. `active` says that it stands
-- in `subs`; once cancelled its channel is closed, and what is buffered can still be received.
pub record Subscriber : Type 0 where
  pub id : ℕ
  pub plan : Plan
  pub ch : List Entry
  pub active : Bool

pub record Hub : Type 0 where
  pub subs : List Subscriber
  pub next_id : ℕ

unfoldable pub new_hub : Hub
new_hub = record { subs = []; next_id = 0 }

-- The `select` with a default: a full channel skips the entry.
pub send : Entry → Subscriber → Subscriber
send e s = if ltb (length s.ch) subscriber_buffer then record s { ch = s.ch ++ e ∷ [] } else s

-- The body of `Append`'s loop.
pub offer : Platform → Entry → Subscriber → Subscriber
offer go e s = if s.active && matches go s.plan e then send e s else s

-- `Append`
unfoldable pub append : Platform → Entry → Hub → Hub
append go e h = record h { subs = map (offer go e) h.subs }

-- `Subscribe`
pub subscribe : Plan → Hub → Hub × ℕ
subscribe p h = (
  record {
    subs = record { id = h.next_id; plan = p; ch = []; active = true } ∷ h.subs;
    next_id = h.next_id + 1;
  },
  h.next_id,
)

-- What `f` makes of one subscriber.
pub at_id : ℕ → (Subscriber → Subscriber) → List Subscriber → List Subscriber
at_id i f [] = []
at_id i f (s ∷ rest) = (if s.id == i then f s else s) ∷ at_id i f rest

unfoldable pub close : Subscriber → Subscriber
close s = record s { active = false }

-- `cancel`: only the first call does something, and a second one does no harm.
pub cancel : ℕ → Hub → Hub
cancel i h = record h { subs = at_id i close h.subs }

abbrev pub behind_head : List Entry → List Entry
behind_head [] = []
behind_head (e ∷ es) = es

abbrev pub head_entry : List Entry → Option Entry
head_entry [] = none
head_entry (e ∷ es) = some e

pub take_one : Subscriber → Subscriber
take_one s = record s { ch = behind_head s.ch }

pub find_sub : ℕ → List Subscriber → Option Subscriber
find_sub i [] = none
find_sub i (s ∷ rest) = if s.id == i then some s else find_sub i rest

received_from : Option Subscriber → Option Entry
received_from none = none
received_from (some s) = head_entry s.ch

-- A receive from the channel of a subscriber: its oldest entry, if there is one.
pub receive : ℕ → Hub → Hub × Option Entry
unfolding received_from
receive i h = (record h { subs = at_id i take_one h.subs }, received_from (find_sub i h.subs))
