-- ===== src/Broker/Machine/Course.antt =====
-- src/broker.rs: every step of the machine, the writer's and its own, keeps it on course.
use eventfold_db.Common.{
  [], ℕ, ◌+◌, ◌≤◌, ◌<◌, ◌≡◌, refl, sym, ap, true, false, List, ◌∷◌, Option, arith, length, ◌⊎◌, inl,
  inr, length-append, append-nil,
}
use mathlib.Core.Path.{subst}
use eventfold_db.Types.{RecordedEvent}
use eventfold_db.EventLog.{EventLog}
use eventfold_db.EventLog.WellFormed.{Positioned, Counted-append}
use eventfold_db.Reader.{max_u64}
use eventfold_db.Broker.{Recv, received, lagged, closed, Message}
use eventfold_db.Broker.Machine.{
  Phase, System, lag_error, poll_phase, on_recv, Step, Reach, at_phase,
}
use eventfold_db.Broker.Machine.Progress.{
  Progress, IsOnCourse, read-Progress, event-Progress, marker-Progress,
}
use eventfold_db.Broker.Machine.Rounds.{receive-Progress, ended-Progress, append-Progress}

module _ (from registered known : ℕ) (order : registered ≤ known)
    (start : (from ≤ registered) ⊎ (from < known)) where
  poll_phase-Progress :
      (log : EventLog) (sent : ℕ) (phase : Phase) (out : List Message)
      → Positioned 0 log.events
      → length log.events ≤ max_u64
      → known ≤ length log.events
      → registered ≤ sent
      → Progress from registered known log.events sent phase out
      → (let (phase, out) = poll_phase log phase out in
          Progress from registered known log.events sent phase out)
  unfolding poll_phase
  poll_phase-Progress log sent (Phase.reading cursor l next) out positioned typed grown behind h =
      read-Progress from registered known order start log sent cursor l next out typed grown h
  poll_phase-Progress log sent (Phase.yielding (e ∷ batch) short cursor l next) out positioned typed
        grown behind h =
      event-Progress from registered known order start log.events sent e batch short cursor l next
        out positioned h
  poll_phase-Progress log sent (Phase.yielding [] false cursor l next) out positioned typed grown
        behind (at_cursor, lasts, same, shown, rest, reached) =
      (at_cursor, lasts, same, shown)
  poll_phase-Progress log sent (Phase.yielding [] true cursor l next) out positioned typed grown
        behind h =
      marker-Progress from registered known order start log.events sent cursor l next out behind h
  poll_phase-Progress log sent (Phase.live l next) out positioned typed grown behind h = h
  poll_phase-Progress log sent Phase.ended out positioned typed grown behind h = h

  moved :
      (s : System) (after : Phase × List Message)
      → IsOnCourse from registered known s
      → (let (phase, out) = after in Progress from registered known s.index.events s.sent phase out)
      → IsOnCourse from registered known (at_phase s after)
  moved s (phase, out) w h = record {
    positioned = w.positioned;
    typed = w.typed;
    inside = w.inside;
    grown = w.grown;
    behind = w.behind;
    progress = h;
  }

  publish-Progress :
      (es : List RecordedEvent) (sent : ℕ) (phase : Phase) (out : List Message)
      → Progress from registered known es sent phase out
      → Progress from registered known es (sent + 1) phase out
  publish-Progress es sent (Phase.reading cursor l next) out h = h
  publish-Progress es sent (Phase.yielding batch short cursor l next) out h = h
  publish-Progress es sent (Phase.live l next) out
        (cursor, (at_cursor, lasts, grown, behind, published, shown)) =
      (cursor, (at_cursor, lasts, grown, behind, omega arith, shown))
  publish-Progress es sent Phase.ended out
        (cursor, next, (tail, (at_cursor, published, form, shown))) =
      (cursor, next, (tail, (at_cursor, omega arith, form, shown)))

  -- What a live subscriber is given.
  at_live :
      (s : System) (last_position : Option ℕ) (next : ℕ)
      → s.phase ≡ Phase.live last_position next
      → IsOnCourse from registered known s
      → Progress from registered known s.index.events s.sent (Phase.live last_position next) s.out
  at_live s last_position next here w =
      subst (λ phase. Progress from registered known s.index.events s.sent phase s.out) here
        w.progress

  on_recv-IsOnCourse :
      (s : System) (r : Recv) (last_position : Option ℕ) (next : ℕ)
      → s.phase ≡ Phase.live last_position next
      → IsOnCourse from registered known s
      → (let (phase, out) = on_recv r (Phase.live last_position next) s.out in
          Progress from registered known s.index.events s.sent phase out)
      → IsOnCourse from registered known (at_phase s (on_recv r s.phase s.out))
  on_recv-IsOnCourse s r last_position next here w h = moved s (on_recv r s.phase s.out) w (
      subst
        (λ p.
          let (phase, out) = on_recv r p s.out in
          Progress from registered known s.index.events s.sent phase out)
        (sym here) h)

  pub Step-IsOnCourse :
      (s t : System)
      → Step s t
      → IsOnCourse from registered known s
      → IsOnCourse from registered known t
  unfolding on_recv
  Step-IsOnCourse s t (Step.append index es grows positioned typed same) w =
      subst (IsOnCourse from registered known) (sym same) record {
        positioned = subst (Positioned 0) (sym grows) (
            Counted-append (λ e. e.global_position) 0 s.index.events es w.positioned
              (rw zero_add positioned));
        typed = typed;
        inside = omega (arith, w.inside, longer);
        grown = omega (arith, w.grown, longer);
        behind = w.behind;
        progress =
            subst (λ xs. Progress from registered known xs s.sent s.phase s.out) (sym grows)
              (append-Progress from registered known order start s.index.events es s.sent s.phase
                s.out w.inside w.progress);
      }
    where
      longer : length s.index.events ≤ length index.events
      longer = omega (arith, ap (length {A = RecordedEvent}) grows, length-append s.index.events es)

      zero_add : 0 + length s.index.events ≡ length s.index.events
      zero_add = omega arith
  Step-IsOnCourse s t (Step.publish more same) w =
      subst (IsOnCourse from registered known) (sym same) record {
        positioned = w.positioned;
        typed = w.typed;
        inside = omega arith;
        grown = w.grown;
        behind = omega (arith, w.behind);
        progress = publish-Progress s.index.events s.sent s.phase s.out w.progress;
      }
  Step-IsOnCourse s t (Step.poll same) w = subst (IsOnCourse from registered known) (sym same) (
      moved s (poll_phase s.index s.phase s.out) w (
        poll_phase-Progress s.index s.sent s.phase s.out w.positioned w.typed w.grown w.behind
          w.progress))
  Step-IsOnCourse s t (Step.receive l next e here more found same) w =
      subst (IsOnCourse from registered known) (sym same) (
        on_recv-IsOnCourse s (received e) l next here w (
          receive-Progress from registered known order start s.index.events s.sent l next e s.out
            w.positioned more found (at_live s l next here w)))
  Step-IsOnCourse s t (Step.lag l next missed here same) w =
      subst (IsOnCourse from registered known) (sym same) (
        on_recv-IsOnCourse s (lagged missed) l next here w (
          ended-Progress from registered known order start s.index.events s.sent l next s.out
            (lag_error ∷ []) (inr refl) (at_live s l next here w)))
  Step-IsOnCourse s t (Step.close l next here same) w =
      subst (IsOnCourse from registered known) (sym same) (
        on_recv-IsOnCourse s closed l next here w (
          subst (λ out. Progress from registered known s.index.events s.sent Phase.ended out)
            (append-nil s.out)
            (ended-Progress from registered known order start s.index.events s.sent l next s.out []
              (inl refl) (at_live s l next here w))))

  pub Reach-IsOnCourse :
      (s t : System)
      → IsOnCourse from registered known s
      → Reach s t
      → IsOnCourse from registered known t
  Reach-IsOnCourse s _ w Reach.here = w
  Reach-IsOnCourse s t w (Reach.and_then {t = u} run step) =
      Step-IsOnCourse u t step (Reach-IsOnCourse s u w run)
