-- ===== src/Service/Append.antt =====
-- src/service.rs: what the `append` handler accepts, and what it answers.
use eventfold_db.Common.{
  ℕ, ◌+◌, ◌^◌, ◌<◌, ◌≡◌, ◌≢◌, ◌∙◌, refl, ap, List, [], ◌∷◌, map, none, some, All, arith, length,
}
use mathlib.Core.List.{get_last?}
use mathlib.Core.Option
use eventfold_db.Crates.{Crc32, UuidCrate, Uuid}
use eventfold_db.Error.{Result, ok, err}
use eventfold_db.Types.{ExpectedVersion, ProposedEvent, RecordedEvent, IsTypedProposal}
use eventfold_db.EventLog.{get}
use eventfold_db.Store
use eventfold_db.Store.{Store, AppendIo}
use eventfold_db.Store.Numbered.{numbered}
use eventfold_db.Store.Crash.{append-assigned}
use eventfold_db.Writer.{AppendRequest}
use eventfold_db.Service.Messages.{
  ProposedMessage, VersionKind, VersionMessage, AppendMessage, AppendReply,
}
use eventfold_db.Service.{
  Reply, reply, refuse, ◌>>=◌, StatusText, parse_uuid, proto_to_expected_version,
  proto_to_proposed_event, to_proposed_events, require_events, to_append_request, respond,
  on_request, append_rpc,
}

-- The messages that a client sends for what the domain holds.
abbrev pub version_message : ExpectedVersion → VersionMessage
version_message ExpectedVersion.any = record { kind = some VersionKind.any }
version_message ExpectedVersion.no_stream = record { kind = some VersionKind.no_stream }
version_message (ExpectedVersion.exact n) = record { kind = some (VersionKind.exact n) }

module _ ⦃uuid : UuidCrate⦄ where
  abbrev pub proposed_message : ProposedEvent → ProposedMessage
  proposed_message p = record {
    event_id = uuid.to_string p.event_id;
    event_type = p.event_type;
    metadata = p.metadata;
    payload = p.payload;
  }

  abbrev pub append_message : AppendRequest → AppendMessage
  append_message req = record {
    stream_id = uuid.to_string req.stream_id;
    expected_version = some (version_message req.expected_version);
    events = map proposed_message req.events;
  }

  proposed_back :
      (ps : List ProposedEvent)
      → All IsTypedProposal ps
      → to_proposed_events (map proposed_message ps) ≡ reply ps
  unfolding to_proposed_events proto_to_proposed_event parse_uuid
  proposed_back [] h = refl
  proposed_back (p ∷ ps) (typed, h) =
      rw (uuid.parse-to_string p.event_id typed.event_id, proposed_back ps h) refl

  version_back :
      (v : ExpectedVersion) → proto_to_expected_version (some (version_message v)) ≡ reply v
  unfolding proto_to_expected_version
  version_back ExpectedVersion.any = refl
  version_back ExpectedVersion.no_stream = refl
  version_back (ExpectedVersion.exact n) = refl

  -- A message that carries a typed request of at least one event is read as that request.
  pub to_append_request-append_message :
      (id : Uuid) (expected : ExpectedVersion) (p : ProposedEvent) (ps : List ProposedEvent)
      → id < 2 ^ 128
      → All IsTypedProposal (p ∷ ps)
      → to_append_request
          (append_message (record { stream_id = id; expected_version = expected; events = p ∷ ps }))
        ≡ reply (record { stream_id = id; expected_version = expected; events = p ∷ ps })
  unfolding to_append_request parse_uuid
  to_append_request-append_message id expected p ps typed h =
      rw (uuid.parse-to_string id typed, version_back expected, proposed_back (p ∷ ps) h) refl

  some_proposed :
      (r : Reply ProposedEvent) (rest : Reply (List ProposedEvent)) (es : List ProposedEvent)
      → (r >>= λ e. rest >>= λ es. reply (e ∷ es)) ≡ reply es
      → 0 < length es
  some_proposed (reply e) (reply later) [] h = cc
  some_proposed (reply e) (reply later) (x ∷ es) h = omega arith
  some_proposed (reply e) (refuse s) es h = cc
  some_proposed (refuse s) rest es h = cc

  finished :
      (id : Uuid) (v : ExpectedVersion) (events : Reply (List ProposedEvent)) (req : AppendRequest)
      → (events >>= λ es. reply (record { stream_id = id; expected_version = v; events = es }))
        ≡ reply req
      → events ≡ reply req.events
  finished id v (reply es) req h =
      ap {B = Reply (List ProposedEvent)}
        (λ r. elim r [ reply q ↦ reply q.events | refuse s ↦ refuse s ]) h
  finished id v (refuse s) req h = cc

  accepted :
      (a : Reply Uuid) (v : Reply ExpectedVersion) (ms : List ProposedMessage) (req : AppendRequest)
      → (a >>= λ id. v >>= λ expected. require_events ms >>= λ ms. to_proposed_events ms >>= λ es.
          reply (record { stream_id = id; expected_version = expected; events = es }))
        ≡ reply req
      → 0 < length req.events
  unfolding to_proposed_events
  accepted (refuse s) v ms req h = cc
  accepted (reply id) (refuse s) ms req h = cc
  accepted (reply id) (reply v) [] req h = cc
  accepted (reply id) (reply v) (m ∷ ms) req h =
      some_proposed (proto_to_proposed_event m) (to_proposed_events ms) req.events
        (finished id v (to_proposed_events (m ∷ ms)) req h)

  -- A request that the handler hands to the writer has an event.
  pub to_append_request_lem :
      (msg : AppendMessage) (req : AppendRequest)
      → to_append_request msg ≡ reply req
      → 0 < length req.events
  unfolding to_append_request
  to_append_request_lem msg req h =
      accepted (parse_uuid msg.stream_id StatusText.invalid_stream_id)
        (proto_to_expected_version msg.expected_version) msg.events req h

last_numbered :
    (id at position version : ℕ) (p : ProposedEvent) (ps : List ProposedEvent) (d : RecordedEvent)
    → let last = Option.get_or (get_last? (numbered id at position version (p ∷ ps))) d in
      (last.stream_version ≡ version + length ps) × (last.global_position ≡ position + length ps)
last_numbered id at position version p [] d = (omega arith, omega arith)
last_numbered id at position version p (q ∷ ps) d =
    let (v, g) = last_numbered id at (position + 1) (version + 1) q ps d in
    (v ∙ omega arith, g ∙ omega arith)

module _ ⦃crc : Crc32⦄ ⦃uuid : UuidCrate⦄ where
  -- What the writer answers to a request: the append of a store.
  abbrev pub appended_by : AppendIo → ℕ → Store → AppendRequest → Result (List RecordedEvent)
  appended_by os at s req = (Store.append os s req.stream_id req.expected_version at req.events).0

  -- The first and the last number that a batch of `n + 1` events takes.
  abbrev pub range_reply : ℕ → ℕ → ℕ → AppendReply
  range_reply version position n = record {
    first_stream_version = version;
    last_stream_version = version + n;
    first_global_position = position;
    last_global_position = position + n;
  }

  respond-numbered :
      (id at position version : ℕ) (p : ProposedEvent) (ps : List ProposedEvent)
      → respond (ok (numbered id at position version (p ∷ ps)))
        ≡ some (reply (range_reply version position (length ps)))
  unfolding respond
  respond-numbered id at position version p ps =
      let first = Store.to_recorded id at position version p in
      let (v, g) = last_numbered id at position version p ps first in
      λ i. some (
        reply (record {
          first_stream_version = version;
          last_stream_version = v i;
          first_global_position = position;
          last_global_position = g i;
        }))

  -- Over a writer that answers with the append of a store, a message that is read as a request of
  -- at least one event, and that the store appends, is answered with the numbers of its first and
  -- last event: they start where the stream and the log end, and the batch is contiguous.
  pub append_rpc-append :
      (os : AppendIo) (at : ℕ) (s : Store) (msg : AppendMessage) (id : Uuid)
      (expected : ExpectedVersion) (p : ProposedEvent) (ps : List ProposedEvent)
      (es : List RecordedEvent)
      → to_append_request msg
        ≡ reply (record { stream_id = id; expected_version = expected; events = p ∷ ps })
      → (Store.append os s id expected at (p ∷ ps)).0 ≡ ok es
      → append_rpc (appended_by os at s) msg
        ≡ some (
            reply (
              range_reply
                (Store.next_version (get id s.log.streams))
                (length s.log.events)
                (length ps)))
  unfolding append_rpc on_request
  append_rpc-append os at s msg id expected p ps es read done =
      rw (read, done, (append-assigned s id expected at (p ∷ ps) os es done).0)
        (respond-numbered id at _ _ p ps)

  answered :
      (os : AppendIo) (at : ℕ) (s : Store) (id : Uuid) (expected : ExpectedVersion)
      (ps : List ProposedEvent) (r : Result (List RecordedEvent))
      → 0 < length ps
      → (Store.append os s id expected at ps).0 ≡ r
      → respond r ≢ none
  unfolding respond
  answered os at s id expected ps (err e) some_events h = λ q. cc
  answered os at s id expected ps (ok (e ∷ es)) some_events h = λ q. cc
  answered os at s id expected [] (ok []) some_events h = absurd (omega arith)
  answered os at s id expected (p ∷ ps) (ok []) some_events h =
      let (same, small) = append-assigned s id expected at (p ∷ ps) os [] h in
      absurd (omega (arith, ap (length {A = RecordedEvent}) same))

  handled :
      (os : AppendIo) (at : ℕ) (s : Store) (r : Reply AppendRequest)
      → ((req : AppendRequest) → r ≡ reply req → 0 < length req.events)
      → on_request (appended_by os at s) r ≢ none
  unfolding on_request
  handled os at s (refuse status) h = λ q. cc
  handled os at s (reply req) h =
      answered os at s req.stream_id req.expected_version req.events (appended_by os at s req)
        (h req refl) refl

  -- Over a writer that answers with the append of a store, the handler answers and does not panic,
  -- whatever the message, the store and the file system.
  pub append_rpc_total :
      (os : AppendIo) (at : ℕ) (s : Store) (msg : AppendMessage)
      → append_rpc (appended_by os at s) msg ≢ none
  unfolding append_rpc
  append_rpc_total os at s msg =
      handled os at s (to_append_request msg) (λ req h. to_append_request_lem msg req h)
