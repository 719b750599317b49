-- ===== src/Supervisor/Shutdown.antt =====
-- crates/anyclaw-supervisor/src/shutdown.rs: `shutdown_ordered`. When each task ends after its token
-- is cancelled is an answer, in nanoseconds from the start of its wait. The abort of a task that does
-- not end never happens: the handle has been taken. The program cancels the root token before.
use native.Mathlib.Nat.{mul-le-mul_right}
use protoclaw.Base.{
  ◌≡◌, refl, ◌∙◌, ap, ℕ, suc, ◌+◌, ◌*◌, ◌/◌, ◌≤◌, Bool, true, false, Option, none, some, List, [],
  ◌∷◌, ◌++◌, length, ltb, if◌then◌else◌, arith,
}
use protoclaw.Core.Backoff.{from_secs}
use protoclaw.Core.SlotLifecycle.{SlotLifecycle}
use protoclaw.Supervisor.{Name, Exit, Task, running, finished, ManagerSlot}

-- When and how a task ends that is waited for.
pub data Stop : Type 0 where
  stops : ℕ → Exit → Stop
  never : Stop

pub data Event : Type 0 where
  cancelled : Name → Event
  stopped : Name → Exit → Event
  timed_out : Name → Event

-- What waiting for a task yields, and how long it takes.
unfoldable pub wait : ℕ → Name → Stop → Task → Event × ℕ
wait timeout name stop (finished e) = (stopped name e, 0)
wait timeout name never (running m) = (timed_out name, timeout)
wait timeout name (stops t e) (running m) =
    if ltb t timeout then (stopped name e, t) else (timed_out name, timeout)

one_more : (n timeout a b : ℕ) → a ≤ n * timeout → b ≤ timeout → a + b ≤ suc n * timeout
one_more n timeout a b h k = omega (arith, h, k)

within_third : (n secs time : ℕ) → n ≤ 3 → time ≤ n * from_secs (secs / 3) → time ≤ from_secs secs
within_third n secs time b h = omega (arith, h, mul-le-mul_right (from_secs (secs / 3)) b)

-- The managers whose tokens are cancelled, in their order.
unfoldable pub cancellations : List Event → List Name
cancellations [] = []
cancellations (cancelled name ∷ log) = name ∷ cancellations log
cancellations (stopped name e ∷ log) = cancellations log
cancellations (timed_out name ∷ log) = cancellations log

-- The managers whose tasks are waited for, in their order.
unfoldable pub awaited : List Event → List Name
awaited [] = []
awaited (cancelled name ∷ log) = awaited log
awaited (stopped name e ∷ log) = name ∷ awaited log
awaited (timed_out name ∷ log) = name ∷ awaited log

log-append :
    (xs ys : List Event)
    → (cancellations (xs ++ ys) ≡ cancellations xs ++ cancellations ys)
      × (awaited (xs ++ ys) ≡ awaited xs ++ awaited ys)
unfolding cancellations awaited
log-append [] ys = (refl, refl)
log-append (cancelled name ∷ xs) ys = let (c, a) = log-append xs ys in (ap (λ l. name ∷ l) c, a)
log-append (stopped name e ∷ xs) ys = let (c, a) = log-append xs ys in (c, ap (λ l. name ∷ l) a)
log-append (timed_out name ∷ xs) ys = let (c, a) = log-append xs ys in (c, ap (λ l. name ∷ l) a)

wait-le :
    (timeout : ℕ) (name : Name) (stop : Stop) (task : Task)
    → (wait timeout name stop task).1 ≤ timeout
unfolding wait
wait-le timeout name stop (finished e) = omega arith
wait-le timeout name never (running m) = omega arith
wait-le timeout name (stops t e) (running m) = ground arith

-- A wait is logged under the name of its manager.
Ended : Name → Event → Type 0
Ended name event = (cancellations (event ∷ []) ≡ []) × (awaited (event ∷ []) ≡ name ∷ [])

ended :
    (name : Name) (r s : Event × ℕ) (b : Bool)
    → Ended name r.0
    → Ended name s.0
    → Ended name (if b then r else s).0
ended name r s true p q = p
ended name r s false p q = q

wait-Ended :
    (timeout : ℕ) (name : Name) (stop : Stop) (task : Task)
    → Ended name (wait timeout name stop task).0
unfolding wait cancellations awaited Ended
wait-Ended timeout name stop (finished e) = (refl, refl)
wait-Ended timeout name never (running m) = (refl, refl)
wait-Ended timeout name (stops t e) (running m) =
    ended name (stopped name e, t) (timed_out name, timeout) (ltb t timeout) (refl, refl)
      (refl, refl)

module _ {Token : Type 0} (child_token : Token → Token) (root : Token) where
  abbrev Slot : Type 0
  Slot = ManagerSlot child_token root

  -- The tokens of the slots are children of the root token: where that is cancelled they are
  -- cancelled already, and to cancel one of them changes nothing.
  abbrev pub cancel : (root_cancelled : Bool) → Name → List Event
  cancel true name = []
  cancel false name = cancelled name ∷ []

  unfoldable pub shutdown_slot :
      (root_cancelled : Bool) → ℕ → (Name → Stop) → Slot → Slot × List Event × ℕ
  unfolding wait
  shutdown_slot root_cancelled timeout stop slot =
      let slot' : Slot = record slot { join_handle = none } in
      elim slot.join_handle [
        | none ↦ (slot', cancel root_cancelled slot.name, 0)
        | some task ↦
            let (event, time) = wait timeout slot.name (stop slot.name) task in
            (slot', cancel root_cancelled slot.name ++ event ∷ [], time)
      ]

  -- The slots from the last to the first, each when the ones behind it are done.
  unfoldable pub shutdown_ordered :
      (root_cancelled : Bool) → ℕ → (Name → Stop) → List Slot → List Slot × List Event × ℕ
  unfolding shutdown_slot
  shutdown_ordered root_cancelled timeout stop [] = ([], [], 0)
  shutdown_ordered root_cancelled timeout stop (slot ∷ slots) =
      let (slots', log, time) = shutdown_ordered root_cancelled timeout stop slots in
      let (slot', log', time') = shutdown_slot root_cancelled timeout stop slot in
      (slot' ∷ slots', log ++ log', time + time')

  -- No task is left to a slot, and nothing else of it changes.
  abbrev pub Down : List Slot → List Slot → Type 0
  Down [] [] = Unit
  Down [] (slot' ∷ slots') = ⊥
  Down (slot ∷ slots) [] = ⊥
  Down (slot ∷ slots) (slot' ∷ slots') =
      (slot' ≡ record slot { join_handle = none }) × Down slots slots'

  -- The managers that have a task.
  abbrev pub has_task : Slot → List Name
  has_task slot = elim slot.join_handle [ none ↦ [] | some task ↦ slot.name ∷ [] ]

  -- The names of the slots, each as often as `f` says, from the last slot to the first.
  abbrev pub backwards : (Slot → List Name) → List Slot → List Name
  backwards f [] = []
  backwards f (slot ∷ slots) = backwards f slots ++ f slot

  -- The tokens that the shutdown cancels.
  abbrev pub told : (root_cancelled : Bool) → Slot → List Name
  told true slot = []
  told false slot = slot.name ∷ []

  abbrev SlotDown : Bool → ℕ → Slot → Slot × List Event × ℕ → Type 0
  SlotDown root_cancelled timeout slot (slot', log, time) =
      (slot' ≡ record slot { join_handle = none })
      × (cancellations log ≡ told root_cancelled slot)
      × (awaited log ≡ has_task slot)
      × (time ≤ timeout)

  slot_down :
      (root_cancelled : Bool) (timeout : ℕ) (stop : Name → Stop) (name : Name)
      (handle : Option Task) (l : SlotLifecycle Token)
      → (let slot : Slot = record { name = name; join_handle = handle; lifecycle = l } in
          SlotDown root_cancelled timeout slot (shutdown_slot root_cancelled timeout stop slot))
  unfolding shutdown_slot cancellations awaited Ended
  slot_down true timeout stop name none l = (refl, refl, refl, omega arith)
  slot_down false timeout stop name none l = (refl, refl, refl, omega arith)
  slot_down true timeout stop name (some task) l =
      let (c, a) = wait-Ended timeout name (stop name) task in
      (refl, c, a, wait-le timeout name (stop name) task)
  slot_down false timeout stop name (some task) l =
      let (c, a) = wait-Ended timeout name (stop name) task in
      (refl, ap (λ names. name ∷ names) c, a, wait-le timeout name (stop name) task)

  each_ends :
      (root_cancelled : Bool) (timeout : ℕ) (stop : Name → Stop) (slots : List Slot)
      → (let (slots', log, time) = shutdown_ordered root_cancelled timeout stop slots in
          Down slots slots'
          × (cancellations log ≡ backwards (told root_cancelled) slots)
          × (awaited log ≡ backwards has_task slots)
          × (time ≤ length slots * timeout))
  unfolding shutdown_ordered cancellations awaited
  each_ends root_cancelled timeout stop [] = (tt, refl, refl, omega arith)
  each_ends root_cancelled timeout stop (slot ∷ slots) =
      let (d, c, a, t) = each_ends root_cancelled timeout stop slots in
      let (j, k, n, w) =
        slot_down root_cancelled timeout stop slot.name slot.join_handle slot.lifecycle in
      let before = (shutdown_ordered root_cancelled timeout stop slots).1 in
      let log = (shutdown_slot root_cancelled timeout stop slot).1 in
      let (joined, waits) = log-append before log in
      (
        (j, d),
        joined
            ∙ (ap (λ x. x ++ cancellations log) c
                ∙ ap (λ x. backwards (told root_cancelled) slots ++ x) k),
        waits ∙ (ap (λ x. x ++ awaited log) a ∙ ap (λ x. backwards has_task slots ++ x) n),
        one_more (length slots) timeout (shutdown_ordered root_cancelled timeout stop slots).2
            (shutdown_slot root_cancelled timeout stop slot).2 t w,
      )

  -- Whatever the managers do, the shutdown ends: the task of each manager is waited for, from the
  -- last manager to the first, until it ends or is given up, and no slot keeps a task. Where the
  -- root token is not cancelled before, the tokens of the managers are cancelled in that order; where
  -- it is, they all are cancelled already. Where the time for each of three managers is a third
  -- of the configured seconds, all waits together take no longer than the configured seconds.
  pub shutdown_ordered-Down :
      (root_cancelled : Bool) (secs : ℕ) (stop : Name → Stop) (slots : List Slot)
      → length slots ≤ 3
      → (let (slots', log, time) =
            shutdown_ordered root_cancelled (from_secs (secs / 3)) stop slots in
          Down slots slots'
          × (cancellations log ≡ backwards (told root_cancelled) slots)
          × (awaited log ≡ backwards has_task slots)
          × (time ≤ from_secs secs))
  shutdown_ordered-Down root_cancelled secs stop slots h =
      let (d, c, a, t) = each_ends root_cancelled (from_secs (secs / 3)) stop slots in
      (
        d,
        c,
        a,
        within_third (length slots) secs
            (shutdown_ordered root_cancelled (from_secs (secs / 3)) stop slots).2 h t,
      )
