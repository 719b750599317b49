-- ===== src/Agents/Tests.antt =====
-- Tests of the session queue, and instances of its theorems.
mod Slots
mod Boots
mod Prompts
mod Completions
use protoclaw.Base.{ℕ, ◌≡◌, refl, true, false, none, some, List, [], ◌∷◌, ◌++◌, nat_eq}
use protoclaw.Agents.SessionQueue.{
  SessionQueue, RichPayload, new, push, push_only, flush_pending, mark_idle, drain_queued,
  is_active,
}
use protoclaw.Base.Map.{get, insert, remove, contains, add, discard}
use protoclaw.Agents.SessionQueue.Lines.{
  marks_idle, next, line, spec, step, step-line, all_contents,
}
use protoclaw.Agents.SessionQueue.Dispatch.{enqueue, complete}
use protoclaw.Agents.SessionQueue.Order.{
  Event, handle, arrives, ends, run, sent, arrived, arrived-run,
}

abbrev message : ℕ → RichPayload ℕ ℕ
message n = (n ∷ [], none)

abbrev traffic : List (ℕ × Event ℕ ℕ)
traffic =
    (1, arrives (message 10))
    ∷ (2, arrives (message 20))
    ∷ (1, arrives (message 11))
    ∷ (1, arrives (message 12))
    ∷ (1, ends)
    ∷ (2, ends)
    ∷ []

traffic_test : sent 1 (run traffic new).1 ≡ 10 ∷ 11 ∷ 12 ∷ []
unfolding run sent handle enqueue complete new push push_only flush_pending mark_idle drain_queued
    is_active get insert remove contains add discard
traffic_test = refl

arrived-run_example :
    (arrived 1 traffic
      ≡ sent 1 (run traffic new).1 ++ all_contents (line 1 (run traffic new).0).waiting)
    × ((line 1 (run traffic new).0).busy ≡ false → arrived 1 traffic ≡ sent 1 (run traffic new).1)
arrived-run_example = arrived-run traffic 1

-- A line with a prompt in flight and a message waiting.
abbrev busy_queue : SessionQueue ℕ ℕ ℕ
busy_queue = record { queues = (1, message 10 ∷ []) ∷ []; active = 1 ∷ [] }

step-line_example :
    ((step 1 marks_idle busy_queue).1 ≡ next (some (message 10)))
    × (line 1 (step 1 marks_idle busy_queue).0 ≡ record { busy = true; waiting = [] })
unfolding get contains spec
step-line_example = step-line 1 1 marks_idle busy_queue
