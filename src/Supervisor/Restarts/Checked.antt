-- ===== src/Supervisor/Restarts/Checked.antt =====
-- What the check of one manager does to the state of the supervisor.
use protoclaw.Base.{
  ◌≡◌, refl, ◌∙◌, ap, inl, inr, ℕ, Bool, true, false, ◌&&◌, ◌||◌, Option, none, some, List, [], ◌∷◌,
  Bool-cases, arith,
}
use protoclaw.Core.SlotLifecycle.{SlotLifecycle, restart_after}
use protoclaw.Core.SlotLifecycle.Doubles.{Doubles, record_crash-cases}
use protoclaw.Supervisor.{
  Name, tools, agents, channels, Manager, clean, error, panicked, Task, running, finished,
  Supervisor, Answer, is_critical, ManagerSlot, restarted, after_crash, crashed, check_slot,
}
use protoclaw.Supervisor.Restarts.Recreated.{HasSender, recreate-makes}

-- The managers that the program does not go on without.
unfoldable pub brings_down : Name → Bool
brings_down tools = false
brings_down agents = true
brings_down channels = true

is_critical-brings_down : (name : Name) → is_critical name ≡ brings_down name
unfolding is_critical brings_down
is_critical-brings_down tools = refl
is_critical-brings_down agents = refl
is_critical-brings_down channels = refl

module _ {Token : Type 0} (child_token : Token → Token) (root : Token) where
  -- The agents or the channels manager, whose crash loop has been noticed.
  unfoldable pub tripped : ManagerSlot child_token root → Bool
  unfolding brings_down
  tripped slot = brings_down slot.name && slot.lifecycle.disabled

  -- A disabled manager does not run, and its delays stay within the range of `Duration`.
  abbrev pub Sound : ManagerSlot child_token root → Type 0
  Sound slot =
      (slot.lifecycle.disabled ≡ true → slot.join_handle ≡ none) × Doubles slot.lifecycle.backoff

  abbrev pub AllSound : List (ManagerSlot child_token root) → Type 0
  AllSound [] = Unit
  AllSound (slot ∷ slots) = Sound slot × AllSound slots

  -- What one slot's check does to the state: whether it trips the supervisor.
  abbrev pub Checked :
      ManagerSlot child_token root
      → Supervisor
      → Option (ManagerSlot child_token root × Supervisor)
      → Type 0
  Checked slot s o =
      (slot' : ManagerSlot child_token root) × (s' : Supervisor) × (trips : Bool) × (o
        ≡ some (slot', s'))
      × Sound slot'
      × HasSender s'
      × (s'.root_cancelled ≡ (s.root_cancelled || trips))
      × (tripped slot' ≡ (tripped slot || trips))

  or_false : (b : Bool) → b ≡ (b || false)
  or_false true = refl
  or_false false = refl

  trips-critical : (c d : Bool) → (c && true) ≡ ((c && d) || c)
  trips-critical true true = refl
  trips-critical true false = refl
  trips-critical false d = refl

  unchanged :
      (slot : ManagerSlot child_token root) (s : Supervisor)
      → Sound slot
      → HasSender s
      → Checked slot s (some (slot, s))
  unchanged slot s v h =
      (slot, s, false, refl, v, h, or_false s.root_cancelled, or_false (tripped slot))

  restarted-Checked :
      (started : Bool) (slot : ManagerSlot child_token root) (s s' : Supervisor) (m : Manager)
      → slot.lifecycle.disabled ≡ false
      → slot.join_handle ≡ none
      → Doubles slot.lifecycle.backoff
      → s'.root_cancelled ≡ s.root_cancelled
      → HasSender s'
      → Checked slot s (restarted child_token root started slot (s', some m))
  unfolding restarted tripped
  restarted-Checked false slot s s' m u j d e h = (
    slot,
    s',
    false,
    refl,
    ((λ t. j), d),
    h,
    e ∙ or_false s.root_cancelled,
    or_false (tripped slot),
  )
  restarted-Checked true slot s s' m u j d e h = (
    record slot {
      join_handle = some (running m);
      lifecycle = record slot.lifecycle { cancel_token = child_token root };
    },
    s',
    false,
    refl,
    ((λ t. absurd (ground (arith, t, u))), d),
    h,
    e ∙ or_false s.root_cancelled,
    or_false (tripped slot),
  )

  after_crash-Checked :
      (started : Bool) (slot : ManagerSlot child_token root) (s : Supervisor) (delay : ℕ)
      → slot.lifecycle.disabled ≡ false
      → slot.join_handle ≡ none
      → Doubles slot.lifecycle.backoff
      → HasSender s
      → Checked slot s (after_crash child_token root started slot (restart_after delay) s)
  unfolding after_crash
  after_crash-Checked started slot s delay u j d h =
      let (s', m, e, q, h') = recreate-makes child_token root slot.name s h in
      rw (e) (restarted-Checked started slot s s' m u j d q h')

  -- The same for a slot of another lifecycle that is not disabled either.
  crashed-Checked :
      (a : Answer) (slot : ManagerSlot child_token root) (s : Supervisor)
      → slot.lifecycle.disabled ≡ false
      → Doubles slot.lifecycle.backoff
      → HasSender s
      → Checked slot s (crashed child_token root a slot s)
  unfolding crashed after_crash tripped
  crashed-Checked a slot s u d h = elim (record_crash-cases a.now a.later slot.lifecycle d) [
    | inl (l, e, b, d') ↦ (
      record slot { join_handle = none; lifecycle = l },
      record s { root_cancelled = s.root_cancelled || is_critical slot.name },
      brings_down slot.name,
      rw (crashed, e) refl,
      ((λ t. refl), d'),
      h,
      ap (λ x. s.root_cancelled || x) (is_critical-brings_down slot.name),
      rw (b) (trips-critical (brings_down slot.name) slot.lifecycle.disabled),
    )
    | inr (l, delay, e, b, d') ↦
        let slot0 : ManagerSlot child_token root = record slot {
          join_handle = none;
          lifecycle = l;
        } in
        let (slot', s', trips, p, v, k, q, t) =
          after_crash-Checked a.started slot0 s delay (b ∙ u) refl d' h in
        (
          slot',
          s',
          trips,
          rw (crashed, e) p,
          v,
          k,
          q,
          t ∙ ap (λ x. (brings_down slot.name && x) || trips) b,
        )
  ]

  abbrev slot_of : Name → Option Task → SlotLifecycle Token → ManagerSlot child_token root
  slot_of name handle l = record { name = name; join_handle = handle; lifecycle = l }

  -- A manager with a task is not disabled.
  enabled :
      (name : Name) (task : Task) (l : SlotLifecycle Token)
      → Sound (slot_of name (some task) l)
      → l.disabled ≡ false
  enabled name task l v = elim (Bool-cases l.disabled) [
    | inl t ↦ absurd (ground (arith, v.0 t))
    | inr f ↦ f
  ]

  by_handle :
      (a : Answer) (name : Name) (handle : Option Task) (l : SlotLifecycle Token) (s : Supervisor)
      → Sound (slot_of name handle l)
      → HasSender s
      → Checked (slot_of name handle l) s (check_slot child_token root a (slot_of name handle l) s)
  unfolding check_slot tripped
  by_handle a name none l s v h = unchanged (slot_of name none l) s v h
  by_handle a name (some (running m)) l s v h = unchanged (slot_of name (some (running m)) l) s v h
  by_handle a name (some (finished clean)) l s v h = (
    slot_of name none l,
    s,
    false,
    refl,
    ((λ t. refl), v.1),
    h,
    or_false s.root_cancelled,
    or_false (tripped (slot_of name none l)),
  )
  by_handle a name (some (finished (error x))) l s v h =
      let task = finished (error x) in
      crashed-Checked a (slot_of name (some task) l) s (enabled name task l v) v.1 h
  by_handle a name (some (finished (panicked x))) l s v h =
      let task = finished (panicked x) in
      crashed-Checked a (slot_of name (some task) l) s (enabled name task l v) v.1 h

  pub check_slot-Checked :
      (a : Answer) (slot : ManagerSlot child_token root) (s : Supervisor)
      → Sound slot
      → HasSender s
      → Checked slot s (check_slot child_token root a slot s)
  check_slot-Checked a slot s v h = by_handle a slot.name slot.join_handle slot.lifecycle s v h
