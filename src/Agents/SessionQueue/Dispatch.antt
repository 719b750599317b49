-- ===== src/Agents/SessionQueue/Dispatch.antt =====
-- How the manager drives the queue: `EnqueueMessage` in crates/anyclaw-agents/src/commands.rs and
-- the end of `handle_prompt_completion` in incoming.rs.
use mathlib.Core.List.{append_assoc, append-nil}
use protoclaw.Base.{
  true, false, Option, none, some, List, [], ◌∷◌, ◌++◌, ◌≡◌, refl, sym, ◌∙◌, arith, if◌then◌else◌,
  KeyEq, ◌=?◌, eq_self,
}
use protoclaw.Agents.SessionQueue.{
  RichPayload, SessionQueue, push, mark_idle, push_only, flush_pending, drain_queued, is_active,
}
use protoclaw.Agents.SessionQueue.Lines.{
  Line, pushes, pushes_only, marks_idle, flushes, drains, spec, line, step, step-line, one_message,
  all_contents,
}

module _ {C M : Type 0} where
  -- The loop over the drained messages: all contents, and the last metadata that is there.
  unfoldable pub absorb : List C → Option M → List (RichPayload C M) → RichPayload C M
  absorb content meta [] = (content, meta)
  absorb content meta ((c, none) ∷ ps) = absorb (content ++ c) meta ps
  absorb content meta ((c, some m) ∷ ps) = absorb (content ++ c) (some m) ps

  abbrev pub or_nothing : Option (RichPayload C M) → List (RichPayload C M)
  or_nothing none = []
  or_nothing (some p) = p ∷ []

  pub absorb-all_contents :
      (content : List C) (meta : Option M) (ps : List (RichPayload C M))
      → (absorb content meta ps).0 ≡ content ++ all_contents ps
  unfolding absorb all_contents
  absorb-all_contents content meta [] = sym (append-nil content)
  absorb-all_contents content meta ((c, none) ∷ ps) =
      absorb-all_contents (content ++ c) meta ps ∙ append_assoc content c (all_contents ps)
  absorb-all_contents content meta ((c, some m) ∷ ps) =
      absorb-all_contents (content ++ c) (some m) ps ∙ append_assoc content c (all_contents ps)

  pub all_contents-append :
      (ps rs : List (RichPayload C M))
      → all_contents (ps ++ rs) ≡ all_contents ps ++ all_contents rs
  unfolding all_contents
  all_contents-append [] rs = refl
  all_contents-append ((c, m) ∷ ps) rs =
      rw (all_contents-append ps rs) (sym (append_assoc c (all_contents ps) (all_contents rs)))

  -- The same two steps on the line of the session.
  abbrev pub enqueue_spec : RichPayload C M → Line C M → Line C M × Option (RichPayload C M)
  enqueue_spec p l =
      if l.busy
      then (record l { waiting = l.waiting ++ p ∷ [] }, none)
      else (record { busy = true; waiting = [] }, some p)

  abbrev pub complete_spec : Line C M → Line C M × Option (RichPayload C M)
  complete_spec l = elim l.waiting [
    | [] ↦ (record { busy = false; waiting = [] }, none)
    | p ∷ ps ↦ (record l { waiting = [] }, some (absorb p.0 p.1 ps))
  ]

  pub complete_spec-all_contents :
      (l : Line C M) (ws : List (RichPayload C M))
      → l.waiting ≡ ws
      → all_contents ws
        ≡ all_contents (or_nothing (complete_spec l).1) ++ all_contents (complete_spec l).0.waiting
  unfolding all_contents absorb
  complete_spec-all_contents l [] h = ground arith
  complete_spec-all_contents l (p ∷ ps) h = ground (
    arith,
    absorb-all_contents p.0 p.1 ps,
    append-nil (p.0 ++ all_contents ps),
    append-nil ((p.0 ++ all_contents ps) ++ []),
  )

module _ {K C M : Type 0} ⦃e : KeyEq K⦄ where
  -- A message arrives: the queue, and the prompt to dispatch if there is one.
  unfoldable pub enqueue :
      K → RichPayload C M → SessionQueue K C M → SessionQueue K C M × Option (RichPayload C M)
  enqueue k p q =
      if is_active k q then ((push k p q).0, none) else flush_pending k (push_only k p q).0

  finish :
      K
      → SessionQueue K C M × Option (RichPayload C M)
      → SessionQueue K C M × Option (RichPayload C M)
  finish k (q, none) = (q, none)
  finish k (q, some (content, meta)) =
      let (q', remaining) = drain_queued k q in (q', some (absorb content meta remaining))

  -- A prompt has ended: the queue, and the next prompt to dispatch if there is one.
  unfoldable pub complete : K → SessionQueue K C M → SessionQueue K C M × Option (RichPayload C M)
  unfolding finish absorb
  complete k q = finish k (mark_idle k q)

  -- A session with no prompt in flight has nothing waiting.
  abbrev pub IsQuiet : SessionQueue K C M → Type 0
  IsQuiet q = (k : K) → (line k q).busy ≡ false → (line k q).waiting ≡ []

  pub enqueue-line :
      (k j : K) (p : RichPayload C M) (q : SessionQueue K C M)
      → ((line k q).busy ≡ false → (line k q).waiting ≡ [])
      → ((enqueue k p q).1 ≡ (enqueue_spec p (line k q)).1)
        × (line j (enqueue k p q).0 ≡ (if k =? j then (enqueue_spec p (line k q)).0 else line j q))
  unfolding enqueue is_active spec step
  enqueue-line k j p q quiet =
      let q' = (push_only k p q).0 in
      ground (
        arith,
        eq_self k,
        step-line k j (pushes p) q,
        step-line k k (pushes_only p) q,
        step-line k j (pushes_only p) q,
        step-line k j flushes q',
        one_message p,
      )

  pub complete-line :
      (k j : K) (q : SessionQueue K C M)
      → ((complete k q).1 ≡ (complete_spec (line k q)).1)
        × (line j (complete k q).0 ≡ (if k =? j then (complete_spec (line k q)).0 else line j q))
  unfolding complete spec step
  complete-line k j q =
      let q' = (mark_idle k q).0 in
      ground (
        arith,
        eq_self k,
        step-line k k marks_idle q,
        step-line k j marks_idle q,
        step-line k j drains q',
      )
