-- ===== src/Lib.antt =====
-- rttx: a terminal multiplexer, of a daemon that owns workspaces of terminal panes
-- (services/rttx-server), a protocol (protocols/rttx-proto) and a GTK client that draws them
-- (clients/rttx).
--
-- The daemon keeps, for each workspace, a map of panes and a binary tree whose leaves name them. A
-- client attaches to a workspace, at most one of them with the write lease, asks for changes, and gets
-- a snapshot of the tree, from which it builds the layout that it draws.
--
-- PaneTree        services/rttx-server/src/pane_tree.rs: `PaneTree` and its walks. Leaves, Ratio and
--                 Remove have what the walks do to the panes and the ratios.
-- WorkspaceTree   services/rttx-server/src/pane_tree.rs: `WorkspaceTree`, a method per function.
--                 Valid is its invariant, Validate the code's own check of it, View the ordered list
--                 of panes with a focus that it implements, Resize the write through a path, and Run
--                 any sequence of calls.
-- Pane            services/rttx-server/src/pane.rs: a pane's record. The terminal engine is the
--                 parameter `Engine`.
-- Workspace       services/rttx-server/src/workspace.rs: one workspace. Lease has the attachments and
--                 the write lease, Panes the operations on panes, tree and focus together, Fields
--                 those on one pane, Naming the name, File the saved form (with state/types.rs), Run
--                 any sequence of calls.
-- Server          services/rttx-server/src/server.rs, protocol.rs and diagnostics.rs: the daemon's shared
--                 state and the handler of each message. Channels has the broadcasts, what a full
--                 channel leads to, and the end of a workspace; Inventory what clients are told of the
--                 workspaces; Handlers one handler per command; Dispatch `handle_v3_message`. Moves is
--                 the relation of the moves that a client may make, with a file on it per kind of
--                 handler. Invariant, Holder, Takeover, Endings, Answers, Delivery and Listing are about
--                 what messages do; Succeeds follows a handler along its good branch. Connection
--                 has the life of a connection and the daemon over the events of all connections.
-- Wire            protocols/rttx-proto/src: UUIDs on the wire, the pane tree from the daemon
--                 (services/rttx-server/src/protocol.rs) to the client
--                 (clients/rttx/src/workspace/tree.rs), the handshake, the chunked scrollback
--                 and the size that clients share. Messages has the records of the messages and the
--                 envelopes, Input what a pane's modes make of an input, Errors the typed errors.
-- Layout          clients/rttx/src/workspace/layout.rs: the client's layout tree and every operation
--                 on it: splits, removal, swap, neighbours, the cycle, and the fields of a terminal.
-- Flight          services/rttx-server/src/flight.rs: the ring of events on the bytes of its file.
-- Common          shared helpers: tests, lists, maps as association lists, texts as bytes, floats as bits.
-- Examples        concrete values, and the theorems at them.
--
-- A mutable reference is state passed in and out. A UUID is its number, a fresh one an argument; a
-- time is an argument; `/proc/<pid>/cwd` is a function from the process. A float is its bits, with
-- Rust's comparisons, widening and clamp defined on them. A map is an
-- association list, iterated in its order. Recursion is on the trees and lists themselves; the one
-- fuel is the number of requests of a client that pages through a scrollback. A client that runs out
-- of them before the last chunk has nothing, and the theorem about it says how many are enough.
--
-- A handler is an action on the daemon's state: it returns the state it leaves and an answer or an
-- error. `Host` is the code outside the program (the terminal engine, `uuid`, the sender of a bounded
-- channel). `World` is what a message finds outside the daemon: the time, a fresh UUID, what `/proc`
-- says, which locks other tasks hold (`try_lock` fails on them), and what the PTYs answer. Spawns,
-- kills and deletions are logged in order. A handler runs without another task between its steps; the
-- two that let go of the lock while a shell starts have their second phase as a function of its own
-- (`finish_create_pane`, `finish_split_pane`), which reads the workspaces again.
--
-- Not modelled: the terminal emulator, the sockets and threads of the daemon and the client, the GTK
-- widgets, the encoding by prost and serde, the logs and metrics, the read loop of a PTY, the
-- frames on a connection, and the start from saved files.
pub mod Common
pub mod PaneTree
pub mod WorkspaceTree
pub mod Pane
pub mod Server
pub mod Workspace
pub mod Layout
pub mod Wire
pub mod Flight
pub mod Examples
