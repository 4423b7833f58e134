-- ===== src/EventLog/Index.antt =====
-- src/store.rs: the index that `append` extends in one step and recovery event by event.
use eventfold_db.Common.{
  [], ℕ, ◌≡◌, ◌∙◌, refl, sym, ap, List, ◌∷◌, ◌++◌, map, some, All, arith, ◌==◌, if◌then◌else◌,
  append_assoc, append-nil,
}
use eventfold_db.Crates.{Uuid}
use eventfold_db.Types.{RecordedEvent}
use eventfold_db.EventLog.{
  Streams, get, positions_of, or_default, push, EventLog, commit, commit_all, push_all, index_batch,
}

pub push-or_default :
    (id position : ℕ) (streams : Streams)
    → push id position (or_default id streams) ≡ push id position streams
unfolding push or_default
push-or_default id position [] = ground arith
push-or_default id position ((j, positions) ∷ streams) =
    ground (arith, push-or_default id position streams)

-- `get` after a `push`.
pub get-push :
    (id j position : ℕ) (streams : Streams)
    → get j (push id position streams)
      ≡ (if id == j then some (positions_of (get j streams) ++ position ∷ []) else get j streams)
unfolding get push
get-push id j position [] = ground arith
get-push id j position ((i, positions) ∷ streams) = ground (arith, get-push id j position streams)

pub commit_all-events :
    (log : EventLog) (es : List RecordedEvent) → (commit_all log es).events ≡ log.events ++ es
unfolding commit_all commit
commit_all-events log [] = sym (append-nil log.events)
commit_all-events log (e ∷ es) =
    commit_all-events (commit log e) es ∙ append_assoc log.events (e ∷ []) es

commit_all-streams :
    (log : EventLog) (id : Uuid) (es : List RecordedEvent)
    → All (λ e. e.stream_id ≡ id) es
    → (commit_all log es).streams ≡ push_all id (map (λ e. e.global_position) es) log.streams
unfolding commit_all commit
commit_all-streams log id [] h = refl
commit_all-streams log id (e ∷ es) h =
    commit_all-streams (commit log e) id es h.1
    ∙ ap (λ i. push_all id (map (λ e. e.global_position) es) (push i e.global_position log.streams))
        h.0

-- A batch of one stream that is not empty: both ways give the same index.
pub commit_all-index_batch :
    (log : EventLog) (id : Uuid) (e : RecordedEvent) (es : List RecordedEvent)
    → All (λ e. e.stream_id ≡ id) (e ∷ es)
    → commit_all log (e ∷ es) ≡ index_batch log id (e ∷ es)
unfolding index_batch
commit_all-index_batch log id e es h =
    λ i. record { events = commit_all-events log (e ∷ es) i; streams = same_streams i }
  where
    later : List ℕ
    later = map (λ e. e.global_position) es

    same_streams :
        (commit_all log (e ∷ es)).streams
        ≡ push_all id later (push id e.global_position (or_default id log.streams))
    same_streams =
        commit_all-streams log id (e ∷ es) h
        ∙ ap (push_all id later) (sym (push-or_default id e.global_position log.streams))
