-- ===== src/Agents/SessionQueue.antt =====
-- crates/anyclaw-agents/src/session_queue.rs, over any types of session keys, content parts
-- and message metadata. A method with `&mut self` returns the new queue and its result.
pub mod Lines
pub mod Dispatch
pub mod Order
use protoclaw.Base.{
  Bool, true, false, not, Option, none, some, List, [], ◌∷◌, ◌++◌, ℕ, length, is_empty,
  if◌then◌else◌, KeyEq, or_default,
}
use protoclaw.Base.Map.{Map, Set, get, insert, remove, contains, add, discard}

abbrev pub RichPayload : Type 0 → Type 0 → Type 0
RichPayload C M = List C × Option M

pub data QueueAction (C M : Type 0) : Type 0 where
  dispatch : RichPayload C M → QueueAction C M
  enqueued : QueueAction C M

pub record SessionQueue (K C M : Type 0) : Type 0 where
  pub queues : Map K (List (RichPayload C M))
  pub active : Set K

module _ {K C M : Type 0} where
  unfoldable pub new : SessionQueue K C M
  new = record { queues = []; active = [] }

  unfoldable pub has_pending : SessionQueue K C M → Bool
  has_pending q = not (is_empty q.queues)

module _ {C M : Type 0} where
  -- The loop of `flush_pending`: the contents in order, and the first metadata that is there.
  unfoldable pub merge : List C → Option M → List (RichPayload C M) → RichPayload C M
  merge content first [] = (content, first)
  merge content none ((c, m) ∷ ps) = merge (content ++ c) m ps
  merge content (some m₀) ((c, m) ∷ ps) = merge (content ++ c) (some m₀) ps

module _ {K C M : Type 0} ⦃e : KeyEq K⦄ where
  -- `entry(key).or_default().push_back(payload)`.
  abbrev pub push_back :
      K → RichPayload C M → Map K (List (RichPayload C M)) → Map K (List (RichPayload C M))
  push_back k p m = insert k (or_default (get k m) ++ p ∷ []) m

  unfoldable pub is_active : K → SessionQueue K C M → Bool
  is_active k q = contains k q.active

  unfoldable pub queued_count : K → SessionQueue K C M → ℕ
  queued_count k q = length (or_default (get k q.queues))

  unfoldable pub push :
      K → RichPayload C M → SessionQueue K C M → SessionQueue K C M × QueueAction C M
  push k p q =
      if contains k q.active
      then (record q { queues = push_back k p q.queues }, enqueued)
      else (record q { active = add k q.active }, dispatch p)

  -- What `mark_idle` does with the queue that it finds under the key.
  mark_idle_found :
      K
      → SessionQueue K C M
      → Option (List (RichPayload C M))
      → SessionQueue K C M × Option (RichPayload C M)
  mark_idle_found k q none = (record q { active = discard k q.active }, none)
  mark_idle_found k q (some []) =
      (record q { queues = remove k q.queues; active = discard k q.active }, none)
  mark_idle_found k q (some (next ∷ [])) = (record q { queues = remove k q.queues }, some next)
  mark_idle_found k q (some (next ∷ p ∷ ps)) =
      (record q { queues = insert k (p ∷ ps) q.queues }, some next)

  unfoldable pub mark_idle : K → SessionQueue K C M → SessionQueue K C M × Option (RichPayload C M)
  unfolding mark_idle_found
  mark_idle k q = mark_idle_found k q (get k q.queues)

  unfoldable pub push_only : K → RichPayload C M → SessionQueue K C M → SessionQueue K C M × Bool
  push_only k p q = (record q { queues = push_back k p q.queues }, not (contains k q.active))

  flush_found :
      K
      → SessionQueue K C M
      → Option (List (RichPayload C M))
      → SessionQueue K C M × Option (RichPayload C M)
  unfolding merge
  flush_found k q none = (q, none)
  flush_found k q (some []) = (record q { queues = remove k q.queues }, none)
  flush_found k q (some (p ∷ ps)) = (
    record q { queues = remove k q.queues; active = add k q.active },
    some (merge [] none (p ∷ ps)),
  )

  unfoldable pub flush_pending :
      K → SessionQueue K C M → SessionQueue K C M × Option (RichPayload C M)
  unfolding flush_found
  flush_pending k q = if contains k q.active then (q, none) else flush_found k q (get k q.queues)

  unfoldable pub drain_queued : K → SessionQueue K C M → SessionQueue K C M × List (RichPayload C M)
  drain_queued k q = (record q { queues = remove k q.queues }, or_default (get k q.queues))
