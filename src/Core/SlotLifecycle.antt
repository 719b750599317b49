-- ===== src/Core/SlotLifecycle.antt =====
-- crates/anyclaw-core/src/slot_lifecycle.rs. The cancellation token of tokio and its
-- `child_token` are parameters; `none` is the panic of the backoff.
pub mod Burst
pub mod Doubles
use protoclaw.Base.{ℕ, Bool, true, false, Option, none, some}
use protoclaw.Core.Backoff.{ExponentialBackoff, next_delay}
use protoclaw.Core.CrashTracker.{CrashTracker, record_crash, is_crash_loop}

pub record SlotLifecycle (Token : Type 0) : Type 0 where
  pub cancel_token : Token
  pub backoff : ExponentialBackoff
  pub crash_tracker : CrashTracker
  pub disabled : Bool

pub data CrashAction : Type 0 where
  disabled : CrashAction
  restart_after : ℕ → CrashAction

unfoldable pub new :
    {Token : Type 0} (child_token : Token → Token)
    → Token
    → ExponentialBackoff
    → CrashTracker
    → SlotLifecycle Token
new child_token parent_cancel backoff crash_tracker = record {
  cancel_token = child_token parent_cancel;
  backoff = backoff;
  crash_tracker = crash_tracker;
  disabled = false;
}

-- `now` is read when the crash is recorded, `later` when the loop is looked for.
unfoldable pub record_crash_and_check :
    {Token : Type 0} (now later : ℕ)
    → SlotLifecycle Token
    → Option (SlotLifecycle Token × CrashAction)
record_crash_and_check now later l =
    let tracker = record_crash now l.crash_tracker in
    elim (is_crash_loop later tracker) [
      | true ↦ some (record l { crash_tracker = tracker; disabled = true }, CrashAction.disabled)
      | false ↦ elim (next_delay l.backoff) [
        | none ↦ none
        | some (b, delay) ↦
            some (record l { crash_tracker = tracker; backoff = b }, restart_after delay)
      ]
    ]
