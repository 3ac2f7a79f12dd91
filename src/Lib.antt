-- ===== src/Lib.antt =====
-- Verification of the local-first architecture repository: three Go programs that keep their data
-- in append-only logs on each node and reconcile them later.
--
-- Base: shared helpers. Tests (Boolean tests, equality of keys), Lists, Order (three-way
--   comparison), Table (Go maps as association lists), Int64 (wrapping int64 arithmetic),
--   Results (a value or an error, with do).
-- Lab: eventlog-lab, where replicas merge logs of CRDT events without arbitration.
--   Lab.Clock: eventlog-lab/clock/clock.go, the hybrid logical clock.
--   Lab.Event: eventlog-lab/eventlog/event.go, events and Validate.
--   Lab.Vector: eventlog-lab/eventlog/event.go, version vectors.
--   Lab.Item: eventlog-lab/crdt/lww.go and item.go, the merged state of a stock item.
--   Lab.Log: eventlog-lab/eventlog/sqlite.go with the statements of log.go, a node's log.
--   Lab.Projector: eventlog-lab/crdt/projector.go, reads from a snapshot and the events behind it.
--   Lab.Node: eventlog-lab/node/node.go, a replica: its operations, restart and merging.
--   Lab.Sync: eventlog-lab/sync/codec.go, the batches of server.go, the delays of client.go.
--   Lab.Samples: events that the examples share.
-- LocalFirst: localfirst-go, where each node owns its keys and a central store collects the records.
--   LocalFirst.Clock: localfirst-go/clock/hlc.go, the hybrid logical clock.
--   LocalFirst.Store: localfirst-go/eventlog/record.go and store.go, a node's log with its projection;
--   Query has the order of replay, the version vectors and the reads.
--   LocalFirst.Balances: localfirst-go/domain/events.go, reducer.go and projection/fold.go, the
--   balances that records fold to.
--   LocalFirst.Inventory: localfirst-go/domain/inventory.go, the commands of a node and its restart.
--   LocalFirst.Sync: localfirst-go/sync/convert.go, session.go and client.go, an exchange with a peer.
-- Warehouse: warehouse-node/internal, warehouses that work offline and a server that arbitrates.
--   Warehouse.World: the arithmetic, calendar and bytes that the code takes from outside.
--   Warehouse.Hlc: domain/hlc.go, the hybrid logical clock.
--   Warehouse.Event: domain/ids.go, event.go and errors.go; Seal has NewEnvelope and DecodePayload.
--   Warehouse.State: domain/state.go, the state that a log folds to; Apply has the cases of the fold.
--   Warehouse.Command: domain/item.go, stock.go, receipt.go, reservation.go, transfer.go and count.go,
--   the commands: Goods, Reserve, Transfer and Count, over the checks that they share.
--   Warehouse.Central: central/store.go and memory.go, what the central server keeps; Log has its
--   events and queues, Report the open transfers.
--   Warehouse.Arbiter: arbiter/validators.go and arbiter.go; Decide has Arbitrate.
--   Warehouse.Samples: a world of whole quantities, in which the examples compute.
--
-- Conventions. A method that changes its receiver returns the new value. A Go int64 is a number
-- below 2 ^ 64 that stands for the integer 2 ^ 63 less (Base.Int64); uint32 and uint64 are numbers.
-- A map is an association list with one entry to a key (Base.Table.IsMap). A pointer that may be
-- nil is an Option. A wall-clock reading is an argument of the operation that takes it.
--
-- Loops are structural recursion on the list that the code ranges over, so that nothing needs fuel.
-- Where Go ranges over a map, the order is that of the list, or a parameter (Lab.Node.merge).
--
-- The parts of eventlog-lab interact as in the code: a node (Lab.Node) holds a log, a clock and a
-- projector; an operation takes a stamp from the clock, appends to the log and may write a snapshot;
-- a merge appends the peer's events and moves the clock past them. The events that a session
-- carries are those of Lab.Log.since, in the batches of Lab.Sync.
--
-- In localfirst-go a command of Inventory stamps its event with the clock and calls Store.append,
-- which asks Inventory.check and installs what Inventory.project gives; a restart replays Store.since.
-- An exchange (LocalFirst.Sync) sends what the peer lacks and merges what it sends, through project too.
-- In warehouse-node a command reads the State and gives events; the log seals them (Event.Seal), and
-- State.Apply folds them, those of central included. Central runs Arbiter.Decide.arbitrate on what a node
-- sends; its compensations are events of its own, which come back to the node through a queue.
--
-- The quantities of warehouse-node are float64. Warehouse.World has the operations that the code uses as
-- a parameter; a theorem that needs more says so: RoundsWell is what IEEE 754 gives of the sign of a
-- result, CountsExactly what it gives of whole numbers up to 2 ^ 53, whose sums and differences are not
-- rounded. Sequence numbers of eventlog-lab stand for those below 2 ^ 63, which SQLite's int64 holds.
--
-- Not modelled: failures of the databases, of encoding/json and of the connections; the Postgres
-- variants of the logs and stores; the sessions' frame protocol of
-- eventlog-lab; the fault harness; the command lines;
-- and of warehouse-node the node's own log, its projections and its service.
pub mod Base
pub mod Lab
pub mod LocalFirst
pub mod Warehouse
