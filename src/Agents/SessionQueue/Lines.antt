-- ===== src/Agents/SessionQueue/Lines.antt =====
-- The queue as one line of waiting messages for each session: every method acts on the line of
-- its own key as the specification below says, and on no other line.
use mathlib.Core.List.{append_assoc, append-nil}
use protoclaw.Base.{
  Bool, true, false, not, Option, none, some, List, [], ◌∷◌, ◌++◌, ◌≡◌, refl, arith, if◌then◌else◌,
  KeyEq, ◌=?◌, or_default,
}
use protoclaw.Base.Map.{get, contains, get-insert, get-remove, contains-add, contains-discard}
use protoclaw.Agents.SessionQueue.{
  RichPayload, QueueAction, dispatch, enqueued, SessionQueue, push, mark_idle, push_only,
  flush_pending, drain_queued, merge,
}

pub record Line (C M : Type 0) : Type 0 where
  pub busy : Bool
  pub waiting : List (RichPayload C M)

pub data Op (C M : Type 0) : Type 0 where
  pushes : RichPayload C M → Op C M
  pushes_only : RichPayload C M → Op C M
  marks_idle : Op C M
  flushes : Op C M
  drains : Op C M

-- What a method returns.
pub data Reply (C M : Type 0) : Type 0 where
  action : QueueAction C M → Reply C M
  was_idle : Bool → Reply C M
  next : Option (RichPayload C M) → Reply C M
  drained : List (RichPayload C M) → Reply C M

abbrev or_later : {M : Type 0} → Option M → Option M → Option M
or_later (some m) later = some m
or_later none later = later

module _ {C M : Type 0} where
  -- All messages of a line as one: their contents in order, with the first metadata that is there.
  unfoldable pub all_contents : List (RichPayload C M) → List C
  all_contents [] = []
  all_contents ((c, m) ∷ ps) = c ++ all_contents ps

  unfoldable pub first_metadata : List (RichPayload C M) → Option M
  first_metadata [] = none
  first_metadata ((c, some m) ∷ ps) = some m
  first_metadata ((c, none) ∷ ps) = first_metadata ps

  merge-all :
      (content : List C) (first : Option M) (ps : List (RichPayload C M))
      → merge content first ps ≡ (content ++ all_contents ps, or_later first (first_metadata ps))
  unfolding merge all_contents first_metadata
  merge-all content none [] = rw (append-nil content) refl
  merge-all content (some m) [] = rw (append-nil content) refl
  merge-all content none ((c, none) ∷ ps) =
      rw (append_assoc content c (all_contents ps)) at (merge-all (content ++ c) none ps)
  merge-all content none ((c, some m) ∷ ps) =
      rw (append_assoc content c (all_contents ps)) at (merge-all (content ++ c) (some m) ps)
  merge-all content (some m₀) ((c, m) ∷ ps) =
      rw (append_assoc content c (all_contents ps)) at (merge-all (content ++ c) (some m₀) ps)

  pub one_message : (p : RichPayload C M) → (all_contents (p ∷ []), first_metadata (p ∷ [])) ≡ p
  unfolding all_contents first_metadata
  one_message (c, none) = rw (append-nil c) refl
  one_message (c, some m) = rw (append-nil c) refl

  -- The specification: a line that is busy has a prompt in flight.
  unfoldable pub spec : Op C M → Line C M → Line C M × Reply C M
  spec (pushes p) l =
      if l.busy
      then (record l { waiting = l.waiting ++ p ∷ [] }, action enqueued)
      else (record l { busy = true }, action (dispatch p))
  spec (pushes_only p) l = (record l { waiting = l.waiting ++ p ∷ [] }, was_idle (not l.busy))
  spec marks_idle l = elim l.waiting [
    | [] ↦ (record { busy = false; waiting = [] }, next none)
    | p ∷ ps ↦ (record l { waiting = ps }, next (some p))
  ]
  spec flushes l = if l.busy then (l, next none) else elim l.waiting [
    | [] ↦ (l, next none)
    | p ∷ ps ↦ (
      record { busy = true; waiting = [] },
      next (some (all_contents (p ∷ ps), first_metadata (p ∷ ps))),
    )
  ]
  spec drains l = (record l { waiting = [] }, drained l.waiting)

module _ {K C M : Type 0} ⦃e : KeyEq K⦄ where
  abbrev pub line : K → SessionQueue K C M → Line C M
  line k q = record { busy = contains k q.active; waiting = or_default (get k q.queues) }

  unfoldable pub step : K → Op C M → SessionQueue K C M → SessionQueue K C M × Reply C M
  step k (pushes p) q = let (q', r) = push k p q in (q', action r)
  step k (pushes_only p) q = let (q', r) = push_only k p q in (q', was_idle r)
  step k marks_idle q = let (q', r) = mark_idle k q in (q', next r)
  step k flushes q = let (q', r) = flush_pending k q in (q', next r)
  step k drains q = let (q', r) = drain_queued k q in (q', drained r)

  abbrev Refines : K → K → Op C M → SessionQueue K C M → Type 0
  Refines k j o q =
      ((step k o q).1 ≡ (spec o (line k q)).1)
      × (line j (step k o q).0 ≡ (if k =? j then (spec o (line k q)).0 else line j q))

  marks_idle-line :
      (k j : K) (q : SessionQueue K C M) (found : Option (List (RichPayload C M)))
      → get k q.queues ≡ found
      → Refines k j marks_idle q
  unfolding step spec mark_idle
  marks_idle-line k j q none h = ground (arith, e.same_iff k j, contains-discard k j q.active)
  marks_idle-line k j q (some []) h =
      ground (arith, e.same_iff k j, contains-discard k j q.active, get-remove k j q.queues)
  marks_idle-line k j q (some (p ∷ [])) h = ground (arith, e.same_iff k j, get-remove k j q.queues)
  marks_idle-line k j q (some (p ∷ p' ∷ ps)) h =
      ground (arith, e.same_iff k j, get-insert k j (p' ∷ ps) q.queues)

  flushes-line :
      (k j : K) (q : SessionQueue K C M) (found : Option (List (RichPayload C M)))
      → get k q.queues ≡ found
      → Refines k j flushes q
  unfolding step spec flush_pending
  flushes-line k j q none h = ground (arith, e.same_iff k j)
  flushes-line k j q (some []) h = ground (arith, e.same_iff k j, get-remove k j q.queues)
  flushes-line k j q (some (p ∷ ps)) h = ground (
    arith,
    e.same_iff k j,
    get-remove k j q.queues,
    contains-add k j q.active,
    merge-all [] none (p ∷ ps),
  )

  -- Refinement: a method on the key `k` returns what the specification returns on the line of
  -- `k`, leaves that line as the specification does, and leaves every other line alone.
  pub step-line :
      (k j : K) (o : Op C M) (q : SessionQueue K C M)
      → ((step k o q).1 ≡ (spec o (line k q)).1)
        × (line j (step k o q).0 ≡ (if k =? j then (spec o (line k q)).0 else line j q))
  unfolding step spec push push_only drain_queued
  step-line k j (pushes p) q = ground (
    arith,
    e.same_iff k j,
    get-insert k j (or_default (get k q.queues) ++ p ∷ []) q.queues,
    contains-add k j q.active,
  )
  step-line k j (pushes_only p) q =
      ground
        (arith, e.same_iff k j, get-insert k j (or_default (get k q.queues) ++ p ∷ []) q.queues)
  step-line k j marks_idle q = marks_idle-line k j q (get k q.queues) refl
  step-line k j flushes q = flushes-line k j q (get k q.queues) refl
  step-line k j drains q = ground (arith, e.same_iff k j, get-remove k j q.queues)
