-- ===== src/Supervisor/Restarts.antt =====
-- The checks of the supervisor in a sequence: when it gives up.
pub mod Recreated
pub mod Checked
use protoclaw.Base.{
  ◌≡◌, refl, sym, ◌∙◌, ap, subst, inl, inr, ℕ, suc, ◌*◌, ◌≤◌, Bool, true, false, not, ◌&&◌, ◌||◌,
  Option, none, some, List, [], ◌∷◌, map, any, if◌then◌else◌, Option-cases, Bool-cases, arith,
}
use protoclaw.Core.Backoff.{duration_max}
use protoclaw.Core.SlotLifecycle.{SlotLifecycle, CrashAction, restart_after, record_crash_and_check}
use protoclaw.Core.SlotLifecycle.Doubles.{Doubles, record_crash-cases}
use protoclaw.Supervisor.{
  Name, tools, agents, channels, Manager, Exit, clean, error, panicked, Task, running, finished,
  Supervisor, Answer, is_critical, create_manager, ManagerSlot, recreate, restarted, after_crash,
  crashed, check_slot, check_and_restart_managers,
}
use protoclaw.Supervisor.Boot.{Input, exited, tick, task_exit, is_name, exit_slot, step, run_checks}
use protoclaw.Supervisor.Restarts.Recreated.{HasSender}
use protoclaw.Supervisor.Restarts.Checked.{tripped, Sound, AllSound, check_slot-Checked}

module _ {Token : Type 0} (child_token : Token → Token) (root : Token) where
  -- The managers, with the root token cancelled exactly if one has tripped it; `before` stands for
  -- the managers that the same check has passed.
  abbrev Counted :
      Bool → Supervisor → Option (List (ManagerSlot child_token root) × Supervisor) → Type 0
  Counted before s o =
      (slots' : List (ManagerSlot child_token root)) × (s' : Supervisor) × (o ≡ some (slots', s'))
      × AllSound child_token root slots'
      × HasSender s'
      × (s'.root_cancelled ≡ (before || any (tripped child_token root) slots'))

  moved : (b t x r : Bool) → ((b || (t || r)) || x) ≡ ((b || (t || x)) || r)
  moved true t x r = refl
  moved false true x r = refl
  moved false false true true = refl
  moved false false true false = refl
  moved false false false true = refl
  moved false false false false = refl

  or_assoc : (b t r : Bool) → ((b || t) || r) ≡ (b || (t || r))
  or_assoc true t r = refl
  or_assoc false t r = refl

  check-Counted :
      (answers : Name → Answer) (slots : List (ManagerSlot child_token root)) (s : Supervisor)
      (before : Bool)
      → AllSound child_token root slots
      → HasSender s
      → s.root_cancelled ≡ (before || any (tripped child_token root) slots)
      → Counted before s (check_and_restart_managers child_token root answers slots s)
  unfolding check_and_restart_managers
  check-Counted answers [] s before v h q = ([], s, refl, v, h, q)
  check-Counted answers (slot ∷ slots) s before v h q =
      let (slot', s1, trips, e, v', h1, q1, t1) =
        check_slot-Checked child_token root (answers slot.name) slot s v.0 h in
      let (slots', s2, e2, v2, h2, q2) =
        check-Counted answers slots s1 (before || tripped child_token root slot') v.1 h1 (
          q1
          ∙ ap (λ x. x || trips) q
          ∙ moved before (tripped child_token root slot) trips
              (any (tripped child_token root) slots)
          ∙ ap (λ x. (before || x) || any (tripped child_token root) slots) (sym t1)) in
      (
        slot' ∷ slots',
        s2,
        rw (check_and_restart_managers, e, e2) refl,
        (v', v2),
        h2,
        q2
            ∙ or_assoc before (tripped child_token root slot')
                (any (tripped child_token root) slots'),
      )

  exit-none :
      (name : Name) (e : Exit) (other : Name) (handle : Option Task)
      → handle ≡ none
      → (if is_name name other then task_exit e handle else handle) ≡ none
  unfolding task_exit
  exit-none name e other none h = ground arith
  exit-none name e other (some task) h = absurd (ground (arith, h))

  exited-Counted :
      (name : Name) (e : Exit) (slots : List (ManagerSlot child_token root))
      → AllSound child_token root slots
      → AllSound child_token root (map (exit_slot child_token root name e) slots)
        × (any (tripped child_token root) (map (exit_slot child_token root name e) slots)
            ≡ any (tripped child_token root) slots)
  unfolding exit_slot tripped
  exited-Counted name e [] v = (tt, refl)
  exited-Counted name e (slot ∷ slots) v =
      let (v', q) = exited-Counted name e slots v.1 in
      (
        (((λ t. exit-none name e slot.name slot.join_handle (v.0.0 t)), v.0.1), v'),
        ap (λ x. tripped child_token root slot || x) q,
      )

  -- From sound managers, with the root token cancelled exactly if the agents or the channels
  -- manager has tripped it, and a sender for the agents: any sequence of exits of managers and of
  -- checks, with any instants and any outcome of each restart, is handled without a panic.
  -- Afterwards the root token is still cancelled exactly if the crash loop of the agents or the
  -- channels manager has been noticed, and no disabled manager runs: no exit and no check takes the
  -- program down for the tools manager alone. A signal, which ends the program as well, is none of
  -- these inputs.
  pub run_checks-tripped :
      (inputs : List (Input child_token root)) (slots : List (ManagerSlot child_token root))
      (s : Supervisor)
      → AllSound child_token root slots
      → HasSender s
      → s.root_cancelled ≡ any (tripped child_token root) slots
      → (slots' : List (ManagerSlot child_token root)) × (s' : Supervisor) × (run_checks child_token
            root inputs slots s
          ≡ some (slots', s'))
        × AllSound child_token root slots'
        × HasSender s'
        × (s'.root_cancelled ≡ any (tripped child_token root) slots')
  unfolding run_checks step
  run_checks-tripped [] slots s v h q = (slots, s, refl, v, h, q)
  run_checks-tripped (exited name e ∷ inputs) slots s v h q =
      let (v', q') = exited-Counted name e slots v in
      run_checks-tripped inputs (map (exit_slot child_token root name e) slots) s v' h (q ∙ sym q')
  run_checks-tripped (tick answers ∷ inputs) slots s v h q =
      let (slots1, s1, e, v1, h1, q1) = check-Counted answers slots s false v h q in
      let (slots2, s2, e2, v2, h2, q2) = run_checks-tripped inputs slots1 s1 v1 h1 q1 in
      (slots2, s2, rw (run_checks, step, e) e2, v2, h2, q2)
