-- ===== src/Channels/Manager/Loop/Slots.antt =====
-- The slots under a crash and under a shutdown: as many as before, with delays that can be
-- doubled.
use protoclaw.Base.{
  ◌≡◌, refl, ap, subst, ℕ, zero, suc, none, some, List, [], ◌∷◌, length, get_elem?, arith,
}
use protoclaw.Core.SlotLifecycle.{SlotLifecycle, CrashAction, restart_after, record_crash_and_check}
use protoclaw.Core.SlotLifecycle.Doubles.{Doubles, reset-Doubles, record_crash-Doubles}
use protoclaw.Channels.Manager.{Outside, ChannelSlot}
use protoclaw.Channels.Manager.Events.{shutdown_all, shutdown_slot}
use protoclaw.Channels.Manager.Crash.{Spawned, respawned, crash_slot, set_elem}

pub length-set_elem :
    {A : Type 0} (i : ℕ) (y : A) (xs : List A) → length (set_elem i y xs) ≡ length xs
unfolding set_elem
length-set_elem i y [] = refl
length-set_elem zero y (x ∷ xs) = refl
length-set_elem (suc i) y (x ∷ xs) = ap suc (length-set_elem i y xs)

module _ (out : Outside) where
  abbrev pub AllDouble : List (ChannelSlot out) → Type 0
  AllDouble [] = Unit
  AllDouble (slot ∷ slots) = Doubles slot.lifecycle.backoff × AllDouble slots

  pub get_elem?-AllDouble :
      (slots : List (ChannelSlot out)) (i : ℕ) (slot : ChannelSlot out)
      → get_elem? slots i ≡ some slot
      → AllDouble slots
      → Doubles slot.lifecycle.backoff
  get_elem?-AllDouble [] i slot e d = absurd (ground (arith, e))
  get_elem?-AllDouble (s ∷ slots) zero slot e d =
      subst (λ t. Doubles t.lifecycle.backoff) (ap (λ o. elim o [ none ↦ s | some t ↦ t ]) e) d.0
  get_elem?-AllDouble (s ∷ slots) (suc i) slot e d = get_elem?-AllDouble slots i slot e d.1

  pub set_elem-AllDouble :
      (i : ℕ) (slot : ChannelSlot out) (slots : List (ChannelSlot out))
      → Doubles slot.lifecycle.backoff
      → AllDouble slots
      → AllDouble (set_elem i slot slots)
  unfolding set_elem
  set_elem-AllDouble i slot [] d all = all
  set_elem-AllDouble zero slot (s ∷ slots) d all = (d, all.1)
  set_elem-AllDouble (suc i) slot (s ∷ slots) d all =
      (all.0, set_elem-AllDouble i slot slots d all.1)

  respawned-Doubles :
      (spawned : Spawned out) (l : SlotLifecycle out.Token) (slot : ChannelSlot out)
      → Doubles l.backoff
      → Doubles (respawned out spawned l slot).lifecycle.backoff
  unfolding respawned
  respawned-Doubles none l slot d = d
  respawned-Doubles (some (conn, defaults)) l slot d = reset-Doubles l.backoff d

  acted :
      (now later : ℕ) (spawned : Spawned out) (slot : ChannelSlot out) (l : SlotLifecycle out.Token)
      (action : CrashAction)
      → record_crash_and_check now later slot.lifecycle ≡ some (l, action)
      → Doubles l.backoff
      → (slot' : ChannelSlot out) × (crash_slot out now later spawned slot ≡ some slot')
        × Doubles slot'.lifecycle.backoff
  unfolding crash_slot
  acted now later spawned slot l CrashAction.disabled e d =
      (record slot { lifecycle = l; connection = none }, rw (crash_slot, e) refl, d)
  acted now later spawned slot l (restart_after delay) e d =
      (respawned out spawned l slot, rw (crash_slot, e) refl, respawned-Doubles spawned l slot d)

  pub crash_slot_runs :
      (now later : ℕ) (spawned : Spawned out) (slot : ChannelSlot out)
      → Doubles slot.lifecycle.backoff
      → (slot' : ChannelSlot out) × (crash_slot out now later spawned slot ≡ some slot')
        × Doubles slot'.lifecycle.backoff
  crash_slot_runs now later spawned slot d =
      let (l, action, e, d') = record_crash-Doubles now later slot.lifecycle d in
      acted now later spawned slot l action e d'

  pub shutdown_all-kept :
      (cancel : out.Token → out.Token) (slots : List (ChannelSlot out))
      → AllDouble slots
      → (length (shutdown_all out cancel slots) ≡ length slots)
        × AllDouble (shutdown_all out cancel slots)
  unfolding shutdown_all shutdown_slot
  shutdown_all-kept cancel [] d = (refl, d)
  shutdown_all-kept cancel (slot ∷ slots) d =
      let (e, k) = shutdown_all-kept cancel slots d.1 in (ap suc e, (d.0, k))
