-- ===== src/Tests/ServiceRuns.antt =====
-- Runs of src/service.rs.
use eventfold_db.Common.{◌≡◌, ◌≢◌, refl, List, [], ◌∷◌, ◌++◌, map, none, some, arith, length, drop}
use eventfold_db.Types.{ExpectedVersion, RecordedEvent}
use eventfold_db.EventLog.{get}
use eventfold_db.Store
use eventfold_db.Store.{done}
use eventfold_db.Store.Crash.{assigned}
use eventfold_db.Writer.{AppendRequest}
use eventfold_db.Service.Messages.{AppendMessage}
use eventfold_db.Service.{reply, to_append_request, append_rpc}
use eventfold_db.Service.Append.{
  append_message, to_append_request-append_message, appended_by, range_reply, append_rpc-append,
  append_rpc_total,
}
use eventfold_db.EventLog.WellFormed.{of_stream}
use eventfold_db.Broker.{publish}
use eventfold_db.Service.Subscribe.{
  event_response, caught_up_response, subscribe_stream_rpc, subscribe_stream_rpc_once,
}
use eventfold_db.Tests.ReaderRuns.{held, held-IsWellFormed, held_versions}
use eventfold_db.Tests.Data.{
  sum_crc, plain_uuid, pay, refund, pay-IsTypedProposal, refund-IsTypedProposal,
}
use eventfold_db.Tests.StoreRuns.{fresh, two, two_appended, program}

abbrev request : AppendRequest
request = record {
  stream_id = 42;
  expected_version = ExpectedVersion.no_stream;
  events = pay ∷ refund ∷ [];
}

abbrev message : AppendMessage
message = append_message request

to_append_request-append_message_example : to_append_request message ≡ reply request
to_append_request-append_message_example =
    to_append_request-append_message 42 ExpectedVersion.no_stream pay (refund ∷ []) (omega arith)
      (pay-IsTypedProposal, (refund-IsTypedProposal, tt))

read_back : to_append_request message ≡ reply request
read_back =
    to_append_request-append_message 42 ExpectedVersion.no_stream pay (refund ∷ []) (omega arith)
      (pay-IsTypedProposal, (refund-IsTypedProposal, tt))

append_rpc-append_example :
    append_rpc (appended_by done 1000 fresh) message
    ≡ some (
        reply
          (range_reply (Store.next_version (get 42 fresh.log.streams)) (length fresh.log.events) 1))
append_rpc-append_example =
    append_rpc-append done 1000 fresh message 42 ExpectedVersion.no_stream pay (refund ∷ [])
      (assigned fresh 42 ExpectedVersion.no_stream 1000 two) read_back two_appended

append_rpc_total_example : append_rpc (appended_by done 1000 fresh) message ≢ none
append_rpc_total_example = append_rpc_total done 1000 fresh message

subscribe_stream_rpc_once_example :
    (caught live : List RecordedEvent) × (caught ++ live ≡ drop 0 (of_stream 42 held.events))
    × (subscribe_stream_rpc
          (record { stream_id = plain_uuid.to_string 42; from_version = 0 })
          (held ∷ [])
          (publish (drop 1 held.events))
        ≡ some (reply (map event_response caught ++ caught_up_response ∷ map event_response live)))
unfolding program of_stream
subscribe_stream_rpc_once_example =
    subscribe_stream_rpc_once 42 held.events (held ∷ []) 0 1 (omega arith) held_versions
      (omega arith) (omega arith) ((held-IsWellFormed, ([], refl), omega arith), tt) (omega arith)
