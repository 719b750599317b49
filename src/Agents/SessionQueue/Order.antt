-- ===== src/Agents/SessionQueue/Order.antt =====
-- The messages of each session keep their order, whatever arrives and ends.
use mathlib.Core.List.{append_assoc, append-nil}
use protoclaw.Base.{
  false, Option, none, some, List, [], ◌∷◌, ◌++◌, ◌≡◌, refl, ap, sym, ◌∙◌, arith, if◌then◌else◌,
  KeyEq, ◌=?◌,
}
use protoclaw.Base.Map.{get}
use protoclaw.Agents.SessionQueue.{RichPayload, SessionQueue, new}
use protoclaw.Agents.SessionQueue.Lines.{line, all_contents}
use protoclaw.Agents.SessionQueue.Dispatch.{
  or_nothing, all_contents-append, complete_spec-all_contents, enqueue, complete, IsQuiet,
  enqueue-line, complete-line,
}

pub data Event (C M : Type 0) : Type 0 where
  arrives : RichPayload C M → Event C M
  ends : Event C M

module _ {K C M : Type 0} ⦃e : KeyEq K⦄ where
  unfoldable pub handle :
      K → Event C M → SessionQueue K C M → SessionQueue K C M × Option (RichPayload C M)
  handle k (arrives p) q = enqueue k p q
  handle k ends q = complete k q

  log : K → Option (RichPayload C M) → List (K × RichPayload C M) → List (K × RichPayload C M)
  log k none ds = ds
  log k (some p) ds = (k, p) ∷ ds

  -- The queue after the events, and all prompts that were dispatched, the first one first.
  unfoldable pub run :
      List (K × Event C M) → SessionQueue K C M → SessionQueue K C M × List (K × RichPayload C M)
  unfolding log
  run [] q = (q, [])
  run ((k, v) ∷ vs) q = let (q', d) = handle k v q in let (q'', ds) = run vs q' in (q'', log k d ds)

  -- What was sent to the session `k`, and what arrived for it.
  unfoldable pub sent : K → List (K × RichPayload C M) → List C
  sent k [] = []
  sent k ((j, p) ∷ ds) = let rest = sent k ds in if j =? k then p.0 ++ rest else rest

  unfoldable pub arrived : K → List (K × Event C M) → List C
  arrived k [] = []
  arrived k ((j, arrives p) ∷ vs) = let rest = arrived k vs in if j =? k then p.0 ++ rest else rest
  arrived k ((j, ends) ∷ vs) = arrived k vs

  abbrev backlog : K → SessionQueue K C M → List C
  backlog k q = all_contents (line k q).waiting

  abbrev QuietAt : K → SessionQueue K C M → Type 0
  QuietAt k q = (line k q).busy ≡ false → (line k q).waiting ≡ []

  handle-IsQuiet :
      (k : K) (v : Event C M) (q : SessionQueue K C M) → IsQuiet q → IsQuiet (handle k v q).0
  unfolding handle
  handle-IsQuiet k (arrives p) q quiet j =
      ground (arith, e.same_iff k j, enqueue-line k j p q (quiet k), quiet j)
  handle-IsQuiet k ends q quiet j = ground (arith, e.same_iff k j, complete-line k j q, quiet j)

  sent-log :
      (j k : K) (d : Option (RichPayload C M))
      → sent j (log k d []) ≡ (if k =? j then all_contents (or_nothing d) else [])
  unfolding sent log all_contents
  sent-log j k none = ground arith
  sent-log j k (some p) = ground arith

  -- One event: what was waiting and what arrives is sent now or waits now.
  handle-backlog :
      (k j : K) (v : Event C M) (q : SessionQueue K C M)
      → QuietAt k q
      → backlog j q ++ arrived j ((k, v) ∷ [])
        ≡ sent j (log k (handle k v q).1 []) ++ backlog j (handle k v q).0
  unfolding handle arrived all_contents
  handle-backlog k j (arrives p) q quiet = ground (
    arith,
    e.same_iff k j,
    enqueue-line k j p q quiet,
    sent-log j k (enqueue k p q).1,
    all_contents-append (line j q).waiting (p ∷ []),
    append-nil (backlog j q),
    append-nil p.0,
    append-nil (p.0 ++ []),
  )
  handle-backlog k j ends q quiet = ground (
    arith,
    e.same_iff k j,
    complete-line k j q,
    sent-log j k (complete k q).1,
    append-nil (backlog j q),
    complete_spec-all_contents (line j q) (line j q).waiting refl,
  )

  arrived-cons :
      (j k : K) (v : Event C M) (vs : List (K × Event C M))
      → arrived j ((k, v) ∷ vs) ≡ arrived j ((k, v) ∷ []) ++ arrived j vs
  unfolding arrived
  arrived-cons j k (arrives p) vs = ground (arith, append-nil p.0)
  arrived-cons j k ends vs = refl

  sent-log-cons :
      (j k : K) (d : Option (RichPayload C M)) (ds : List (K × RichPayload C M))
      → sent j (log k d ds) ≡ sent j (log k d []) ++ sent j ds
  unfolding sent log
  sent-log-cons j k none ds = refl
  sent-log-cons j k (some p) ds = ground (arith, append-nil p.0)

  run-backlog :
      (vs : List (K × Event C M)) (q : SessionQueue K C M) (j : K)
      → IsQuiet q
      → backlog j q ++ arrived j vs ≡ sent j (run vs q).1 ++ backlog j (run vs q).0
  unfolding run
  run-backlog [] q j quiet = unfold arrived sent in append-nil (backlog j q)
  run-backlog ((k, v) ∷ vs) q j quiet =
      let q' = (handle k v q).0 in
      let d = (handle k v q).1 in
      let ds = (run vs q').1 in
      rw (arrived-cons j k v vs, sent-log-cons j k d ds)
        (sym (append_assoc (backlog j q) (arrived j ((k, v) ∷ [])) (arrived j vs))
          ∙ ap (λ (xs : List C). xs ++ arrived j vs) (handle-backlog k j v q (quiet k))
          ∙ append_assoc (sent j (log k d [])) (backlog j q') (arrived j vs)
          ∙ ap (◌++◌ (sent j (log k d []))) (run-backlog vs q' j (handle-IsQuiet k v q quiet))
          ∙ sym (append_assoc (sent j (log k d [])) (sent j ds) (backlog j (run vs q').0)))

  run-IsQuiet :
      (vs : List (K × Event C M)) (q : SessionQueue K C M) → IsQuiet q → IsQuiet (run vs q).0
  unfolding run
  run-IsQuiet [] q quiet = quiet
  run-IsQuiet ((k, v) ∷ vs) q quiet = run-IsQuiet vs (handle k v q).0 (handle-IsQuiet k v q quiet)

  -- Whatever messages arrive for the queue and prompts end, on any sessions in any order: what the
  -- queue has handed out to be sent for a session, followed by what waits in it, is what arrived for
  -- the session, in the order of arrival. The queue itself loses, doubles and overtakes nothing,
  -- and when no prompt of the session is in flight it has handed out all. It is not said that what
  -- is handed out could be sent, and /new and /cancel are none of these events.
  pub arrived-run :
      (vs : List (K × Event C M)) (k : K)
      → let (q, ds) = run vs new in
        (arrived k vs ≡ sent k ds ++ all_contents (line k q).waiting)
        × ((line k q).busy ≡ false → arrived k vs ≡ sent k ds)
  unfolding all_contents
  arrived-run vs k = (all, λ idle. all ∙ drop_backlog idle)
    where
      new_quiet : IsQuiet (new {K = K} {C = C} {M = M})
      new_quiet j h = unfold new get in refl

      all : arrived k vs ≡ sent k (run vs new).1 ++ all_contents (line k (run vs new).0).waiting
      all = unfold new get in run-backlog vs new k new_quiet

      drop_backlog :
          (line k (run vs new).0).busy ≡ false
          → sent k (run vs new).1 ++ all_contents (line k (run vs new).0).waiting
            ≡ sent k (run vs new).1
      drop_backlog idle =
          rw (run-IsQuiet vs new new_quiet k idle) (append-nil (sent k (run vs new).1))
