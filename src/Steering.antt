-- ===== src/Steering.antt =====
-- crates/pirs-agent/src/steering.rs: messages queued for a running agent. The clones of a handle
-- share one store; a handle is its mode and its scope. Theorems in `Delivery`.
pub mod Delivery
mod Samples
use pirs.Prelude.{ℕ, Bool, true, false, Option, none, some, List, [], ◌∷◌, ◌++◌, if◌then◌else◌}
use pirs.Prelude.Lists.{length}
use pirs.Prelude.Text.{Text, text_eq}

pub data QueueMode : Type 0 where
  all one_at_a_time : QueueMode

-- What the clones share: the global queue, and the queues by scope.
pub record Store : Type 0 where
  pub inner : List Text
  pub scoped : List (Text × List Text)

pub record Handle : Type 0 where
  pub mode : QueueMode
  pub scope : Option Text

abbrev pub empty_store : Store
empty_store = record { inner = []; scoped = [] }

unfoldable pub with_mode : QueueMode → Handle
with_mode mode = record { mode = mode; scope = none }

unfoldable pub new : Handle
unfolding with_mode
new = with_mode all

unfoldable pub with_scope : Text → Handle → Handle
with_scope scope h = record h { scope = some scope }

-- `map.get(key)`, with an absent key read as an empty queue.
unfoldable pub queue_of : Text → List (Text × List Text) → List Text
queue_of k [] = []
queue_of k ((j, q) ∷ m) = if text_eq j k then q else queue_of k m

-- The queue under a key replaced; `entry(key).or_default()` adds an absent key.
unfoldable pub put_queue : Text → List Text → List (Text × List Text) → List (Text × List Text)
put_queue k q [] = (k, q) ∷ []
put_queue k q ((j, r) ∷ m) = if text_eq j k then (j, q) ∷ m else (j, r) ∷ put_queue k q m

unfoldable pub push_scoped : Text → Text → Store → Store
push_scoped scope text s = record s {
  scoped = put_queue scope (queue_of scope s.scoped ++ text ∷ []) s.scoped;
}

unfoldable pub push_to : Option Text → Text → Store → Store
push_to none text s = record s { inner = s.inner ++ text ∷ [] }
push_to (some scope) text s = push_scoped scope text s

unfoldable pub push : Handle → Text → Store → Store
unfolding push_to
push h text s = push_to h.scope text s

-- The queue that a handle reads.
unfoldable pub pending_at : Option Text → Store → List Text
pending_at none s = s.inner
pending_at (some scope) s = queue_of scope s.scoped

abbrev is_nil : List Text → Bool
is_nil [] = true
is_nil (t ∷ ts) = false

unfoldable pub is_empty : Handle → Store → Bool
is_empty h s = is_nil (pending_at h.scope s)

unfoldable pub len : Handle → Store → ℕ
len h s = length (pending_at h.scope s)

-- What one poll takes from a queue, and what it leaves.
unfoldable pub released : QueueMode → List Text → List Text
released all q = q
released one_at_a_time [] = []
released one_at_a_time (t ∷ q) = t ∷ []

unfoldable pub retained : QueueMode → List Text → List Text
retained all q = []
retained one_at_a_time [] = []
retained one_at_a_time (t ∷ q) = q

unfoldable pub drain_at : QueueMode → Option Text → Store → List Text × Store
drain_at mode none s = (released mode s.inner, record s { inner = retained mode s.inner })
drain_at mode (some scope) s =
    let q = queue_of scope s.scoped in
    (released mode q, record s { scoped = put_queue scope (retained mode q) s.scoped })

-- The texts that become user messages, and the store after the poll.
unfoldable pub drain : Handle → Store → List Text × Store
unfolding drain_at
drain h s = drain_at h.mode h.scope s
