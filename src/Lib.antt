-- ===== src/Lib.antt =====
-- eventfold-db: a single-node event store. Requests to append go through one writer task, which
-- checks for duplicates, appends to a log file, updates an index in memory and publishes the new
-- events to subscribers. Reads and subscriptions go to the index and to a broadcast channel.
--
-- Files, each with its child modules:
-- Common: names of the library passed on, Boolean tests, lists measured by native numbers,
--   little-endian bytes, UTF-8.
-- Crates: what the program takes from crc32fast and uuid, as interfaces with their documented
--   laws.
-- Types, Error: src/types.rs, src/error.rs.
-- Codec: src/codec.rs, the record and batch formats; a function of the source is a function of
--   the same name on byte lists.
-- EventLog: the index that src/store.rs keeps behind a lock, and the two ways in which it grows.
-- Store: src/store.rs. `Store::open` is `open_store`, with the recovery loop `scan` in
--   Store/Recovery; `Store::append` is `append`. What the operating system answers is an argument.
--   Store/Recovery/Loop, Local, Batch and Extend are about the loop; Store/Written about what a
--   batch that was written decodes to; Store/Durable and Store/Crash about reopening;
--   Store/Numbered, Store/Recorded and Store/Invariant about what append assigns, accepts and
--   refuses; Store/Keys and EventLog/Keys are about the keys of the association list that
--   stands for the `HashMap` of the index;
--   Store/Reads has the reads of `Store` itself.
-- Reader: src/reader.rs, with an insertion sort for the standard library's `sort_by`; Reader/Order
--   is about the order of the listing.
-- Dedup: src/dedup.rs, over an interface for the lru crate.
-- Writer: src/writer.rs. `process` is the body of the loop over the drained requests.
-- Broker: src/broker.rs. A subscription is a function of the logs that its reads see and of what
--   its receiver gives. Broker/Machine is `subscribe_all` once more, as a machine whose polls
--   interleave with the appends and publications of the writer.
-- Service: src/service.rs, the unary handlers and the conversions, over the messages of
--   proto/eventfold.proto in Service/Messages; the subscription handlers in Service/Subscribe, and
--   with the running writer in Service/Live. Service/Beside runs the writer's rounds and the steps of
--   one `subscribe_all` in any given order, a round as one step.
-- Server: Config is `Config::from_env` of src/main.rs, over an environment as a function; Auth is
--   src/auth.rs, over an interface for jsonwebtoken; Metrics is src/metrics.rs. Start is `main` of
--   src/main.rs: a host says what the operating system, tokio and tonic answer to each call, and
--   `main` gives its effects in order and how it ends; Start/Watch and Start/Stages are about the
--   order of the effects, Start/Yields and Start/Guarded about what they hold.
-- Console: eventfold-console/src. App and Keys are app.rs; Client the conversions and the
--   subscription task of client.rs; Loop the event loop of main.rs, a list of ticks that hold what the service
--   answers, what the subscription has sent and the key that was pressed; Views the shortened
--   texts and the window of the live tail; Texts, Tables and Screen what the tabs show, of views and
--   tui.rs; Tls the TLS flags of main.rs, over what the files hold; Start the rest of main.rs, with the
--   connection of client.rs and the terminal's modes of tui.rs.
-- Spec: the abstract event store, a list of events with the commands that a client can give, and
--   the store of the source performing the same commands.
-- Tests: the theorems at concrete inputs, with stand-ins for the crates.
--
-- A `u64` is a native number with the wrap-around written out where the source can overflow. The
-- recovery loop runs on fuel, one unit for each byte of the file and one more; each round takes at
-- least the sixteen bytes of a batch header, so the fuel does not run out. The catch-up of a
-- subscription is given the logs that its reads see; a read that is not full ends it, so as many
-- reads as the missing events fill batches are enough.
--
-- Not modelled: log lines; the gauge of active subscriptions; the colours and widths of
-- the console's views and its panic hook. Locks are not modelled: one task writes, and a read
-- holds the lock for one call.
pub mod Common
pub mod Crates
pub mod Types
pub mod Error
pub mod Codec
pub mod EventLog
pub mod Store
pub mod Reader
pub mod Dedup
pub mod Writer
pub mod Broker
pub mod Service
pub mod Server
pub mod Console
pub mod Spec
mod Tests
