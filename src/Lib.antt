-- ===== src/Lib.antt =====
-- aphros: a commit log distributed by Raft, from Go.
--
-- The program. A node (internal/agent) serves a gRPC log service (internal/server) over a log that
-- Raft replicates (internal/log/distributed.go). The log (internal/log/log.go) is a list of
-- segments; a segment (segment.go) is a store of length-prefixed records (store.go) and a
-- memory-mapped index from offsets to positions (index.go).
--
-- The files.
--   Base, Base/*     lists, slices and big-endian numbers; the conditional and Go's conversions.
--   Result           Go's (value, error) results and methods that change an object and the disk.
--   Api              api/v1: the record; protobuf's encoding is the parameter `Codec`.
--   Disk, Disk/*     the operating system's files, by number, and one directory of names.
--   Store, Store/*   store.go: append, read, read_at, close are Append, Read, ReadAt, Close, and
--                    new_store is newStore; the other definitions are the bufio.Writer below them.
--   Index, Index/*   index.go: new_index, read, write, close, is_maxed.
--   Segment, ...     segment.go: new_segment, append, read, is_maxed, close, remove and
--                    nearest_multiple; Config is the part of config.go that the log uses.
--   Log, Log/*       log.go: new_log, setup, append, read, close, remove, reset, lowest_offset,
--                    highest_offset, truncate; add_segment is l.newSegment.
--   Log/History      what Appends and Reads, in any order, make of a log; Log/Opening:
--                    NewLog on an empty directory.
--   Log/Reading, Log/Refusing  the offsets that Read finds, and those that it refuses.
--   Log/Expected     what Read answers at every offset.
--   Log/Restarting/* a log that is closed and opened again: what Close leaves, how setup opens each
--                    segment twice, what Reads find then, and what becomes of an Append;
--                    Log/Restarting/Crashing: a log that was not closed.
--   Log/Truncating   what a Truncate of some of the segments leaves; Log/Lifecycle: what Reset and a
--                    Truncate of every segment leave.
--   Fsm, Fsm/*       internal/log/distributed.go, the state machine: apply and restore are fsm's Apply
--                    and Restore; a ProduceRequest's encoding is the parameter `RequestCodec`.
--                    Fsm/Replicas: the same entries on two nodes.
--   Snapshot, ...    distributed.go's Snapshot and Persist, over log.go's Reader; io.Copy and
--                    io.MultiReader are copy_store and copy_segments, Raft's sink a parameter.
--   Cluster, ...     distributed.go, DistributedLog over a parameter `Raft`: append, join, leave,
--                    get_servers, wait_for_leader; Cluster/Servers states what is relied on of Raft;
--                    Cluster/Unique: the IDs and the addresses of the members.
--                    Cluster/Setup: NewDistributedLog and Close, over `Parts` that Raft starts.
--   LogStore, ...    distributed.go, logStore: the log as Raft's own store.
--   StreamLayer, ... distributed.go, StreamLayer: dial and accept, and the agent's matcher.
--   Membership, ...  internal/discovery/membership.go: event_handler and what it calls, the
--                    distributed log as its handler, and New (Membership/Starting).
--   Picker, Resolver internal/loadbalance: Build, Pick and nextFollower; Build, ResolveNow
--                    and Close of the resolver.
--   Server, ...      internal/server/server.go over an interface CommitLog, and internal/auth;
--                    Server/Authentication: the calls behind authenticate;
--                    Server/EndToEnd: the service over the distributed log; Server/Wiring:
--                    NewGRPCServer; Server/Statuses: what a client gets of a failed call.
--   Api/OffsetError  api/v1/error.go: the status of an offset that is out of range.
--   MemoryLog, Http  internal/server/log.go and http.go, with encoding/json as parameters;
--                    Http/Routing: NewHTTPServer, with gorilla/mux as the parameter `dispatch`;
--                    Http/Routing/Listed: the list of values that it answers as.
--   Agent, Agent/*   internal/agent/agent.go: RPCAddr, the setups that New runs, and Shutdown.
--   Tls, ConfigFiles internal/config/tls.go and files.go.
--   Cli, Cli/*       cmd/aphros/main.go: setup_config and run; Cli/Flags: setupFlags, and the settings
--                    that viper makes of the flags, the command line and the config file.
--   Commands         cmd/server/main.go and cmd/getservers/main.go.
--   Tests, Tests/*   the theorems at concrete inputs.
--
-- State and calls. A method is a function from its object and the disk to a result and the new
-- object and disk. Files are shared by number, so two segments that open one file see each other's
-- writes. uint64 and uint32 wrap, written `u64` and `u32`; an int64 argument is its bit pattern.
-- Whether a file is faulty is part of the state: a call on a faulty or closed file fails with no
-- effect; partial writes are not modelled. A method that holds its mutex is one step, and an
-- interleaving is the order of the steps. Two parts of the program take more steps than the model:
-- Log.Append reads the highest offset under a lock of its own before it takes the mutex, and Raft runs
-- Persist beside Apply over the readers that Snapshot took. Here Append is one step, as for one caller
-- at a time, and so are Snapshot and Persist together.
--
-- Recursion is on lists, except in restore_loop, whose fuel is the number of bytes of the snapshot,
-- enough since every round takes eight at least, and in copy_rounds, whose fuel is one more than the
-- number of bytes of the store, enough since a round that goes on has read some. What arrives
-- over time (stream requests, rounds of ConsumeStream, events, ticks of WaitForLeader, entries that
-- Raft applies) is a list, in its order.
--
-- Not modelled: Appends that overlap, and what Raft applies while Persist runs; what runs the
-- interceptors; file names, permissions and syncing to the medium; the logger, the views and what else
-- NewGRPCServer only hands to libraries; generated code and what deploys the commands; gRPC, Serf,
-- Raft, cobra and the network, of which the parameters say what is relied on.
pub mod Base
pub mod Result
pub mod Api
pub mod Disk
pub mod Store
pub mod Index
pub mod Segment
pub mod Log
pub mod Agent
pub mod Cli
pub mod Cluster
pub mod Commands
pub mod ConfigFiles
pub mod Fsm
pub mod Http
pub mod LogStore
pub mod Membership
pub mod MemoryLog
pub mod Picker
pub mod Resolver
pub mod Server
pub mod Snapshot
pub mod StreamLayer
pub mod Tls
pub mod Tests
