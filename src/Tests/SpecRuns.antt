-- ===== src/Tests/SpecRuns.antt =====
-- Runs of the abstract store and of src/store.rs together.
use eventfold_db.Common.{[], ◌≡◌, ◌^◌, ◌<◌, List, ◌∷◌, some, arith, length, All}
use eventfold_db.Error.{ok}
use eventfold_db.Types.{ExpectedVersion}
use eventfold_db.EventLog.{get, positions_of}
use eventfold_db.EventLog.WellFormed.{empty-IsWellFormed}
use eventfold_db.Store.{Store, append, done}
use eventfold_db.Store.Crash.{assigned}
use eventfold_db.Store.Numbered.{IsSmall}
use eventfold_db.Reader.{stream_version}
use eventfold_db.Spec.{Command, perform_all, specify_all}
use eventfold_db.Spec.Refinement.{IsGood, perform_all_refines}
use eventfold_db.Spec.Progress.{demanded, append-stream_version}
use eventfold_db.Tests.Data.{sum_crc, plain_uuid, pay-IsTypedProposal, refund-IsTypedProposal}
use eventfold_db.Tests.StoreRuns.{fresh, fresh-IsDurable, two, program}

fresh-IsGood : IsGood fresh
fresh-IsGood = record { formed = empty-IsWellFormed; durable = fresh-IsDurable }

-- An append, a restart, a read, and an append that comes too late.
abbrev commands : List Command
commands =
    Command.append 42 ExpectedVersion.no_stream 1000 two
    ∷ Command.restart
    ∷ Command.read_stream 42 0 5
    ∷ Command.append 42 ExpectedVersion.no_stream 1001 two
    ∷ []

perform_all_refines_example :
    (s' : Store) × (perform_all fresh commands
      ≡ some ((specify_all fresh.log.events commands).0, s'))
    × (s'.log.events ≡ (specify_all fresh.log.events commands).1)
    × IsGood s'
perform_all_refines_example =
    perform_all_refines fresh commands fresh-IsGood
      (
        (
          omega arith,
          omega arith,
          (pay-IsTypedProposal, (refund-IsTypedProposal, tt)),
          omega arith,
          omega arith,
        ),
        (
          tt,
          (
            tt,
            (
              (
                omega arith,
                omega arith,
                (pay-IsTypedProposal, (refund-IsTypedProposal, tt)),
                omega arith,
                omega arith,
              ),
              tt,
            ),
          ),
        ),
      )
      (omega arith)

two-IsSmall : All IsSmall (assigned fresh 42 (demanded (stream_version fresh.log 42)) 1000 two)
unfolding program stream_version
two-IsSmall = (
  record { some_type = omega arith; event_type = omega arith; encoded = omega arith },
  (record { some_type = omega arith; event_type = omega arith; encoded = omega arith }, tt),
)

few : length (positions_of (get 42 fresh.log.streams)) < 2 ^ 64
unfolding program
few = omega arith

append-stream_version_example :
    (append done fresh 42 (demanded (stream_version fresh.log 42)) 1000 two).0
    ≡ ok (assigned fresh 42 (demanded (stream_version fresh.log 42)) 1000 two)
append-stream_version_example =
    append-stream_version fresh 42 1000 two empty-IsWellFormed few two-IsSmall
