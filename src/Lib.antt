-- ===== src/Lib.antt =====
-- A model of shared-state-async, which keeps small pieces of state (JSON values under string keys,
-- one map per registered data type) the same on the nodes of a community network.
--
-- A node holds its state in memory, in the singleton `SharedState`. Commands that publish data run
-- as other processes, insert entries in a state of their own and synchronize with the daemon on
-- the same host; the daemon synchronizes with the daemons of the neighbours. Entries have a time
-- to live, which the daemon lowers every few seconds, and an author, who refreshes them. The types
-- are registered in a configuration file that every process reads.
--
-- The parts and the files that model them:
--   include/sharedstate.hh            State, Wire.Message
--   src/sharedstate.cc                State.Merge (`merge`), State.Bleach (`bleach`), State.Types
--     (`loadRegisteredTypes`, `registerDataType`), Wire.Message (`sendNetworkMessage`,
--     `receiveNetworkMessage`), Wire.Handshake (`clientHandShake`, `serverHandShake`), Sync
--     (`syncWithPeer`, `handleReqSyncConnection`), Sync.Hooks (`notifyHooks`), Stats
--     (`collectStat`), Neighbours (`getCandidatesNeighbours`), Serial (`serial_process`,
--     `fromStateSlice`, `toStateSlice`)
--   src/async_socket.cc               Wire.Socket (`recv`, `send`), Sockets (`connect`,
--     `setupListener`, `accept`, `getPeerAddr`)
--   include/io_context.hh, src/io_context.cc, include/async_file_descriptor.hh
--                                     EventLoop (`registerFD`, `closeAFD`, `attach`, `watchRead`),
--     EventLoop.Turn (`resumePendingOps`, `run`)
--   include/awaitable_syscall.hh      Awaitable (`await_suspend`, `await_resume`)
--   src/*_operation.cc                Awaitable.Operations
--   src/read_operation.cc, src/write_operation.cc
--                                     Awaitable.Transfers (`asyncRead`, `asyncWrite`)
--   src/async_command.cc              Command (`execute`, `closeAFD`, `waitTermination`),
--     Command.Child (what the child does)
--   include/task.hh                   Task
--   app/shared_state_cli.cc           Cli.Insert and Cli.Commands (`insert`, `dump`, `get`, `sync`),
--     Cli.BleachLoop (`bleachDataLoop`), Cli.Accepting (`acceptReqSyncConnectionsLoop`), Cli.Peer
--     and Cli.Daemon (`peer`), Cli.Registering (`register`)
--   app/shared-state-async.cc         Cli.Dispatch (`main`)
--   src/async_timer.cc                Timer (`create`, `wait`)
--   include/shared_state_errors.hh    Errors
--   src/epoll_events_to_string.cc     EventLoop.Text
-- State.Invariant states when a storage is well-formed, and History takes the calls in any order:
-- each changes the storage in one step of the single thread, with no suspension inside. The module
-- Prelude has the shared helpers: Boolean tests, `std::map` as an association list in the order of
-- its keys, integers with the wrap-around of `int64_t`, and strings as lists of bytes. Tests has
-- concrete data for every theorem.
--
-- Sockets, timers and child processes are descriptors of one event loop. An awaited system call puts
-- the handle of its coroutine into the queue of the descriptor and asks the context to watch it; a
-- round of the loop resumes what waits on the descriptors that have events, and then tells the
-- kernel what is wanted of each. EventLoop.Steps has what a coroutine does to the context between
-- two suspensions, and EventLoop.Rounds follows the rounds. The descriptors of the event loop are
-- numbers, its objects stand at addresses, and a null pointer or -1 is `none`.
--
-- Calls that can fail give a `Result`: `fail` is the return of the failure value after
-- `rs_error_bubble_or_exit`, which is a macro of another repository and may end the process
-- instead; `throw` is an exception, `crash` undefined behaviour. What talks to the system takes
-- and gives the state of the world (Wire.Io). The system calls below a socket are a parameter, the
-- record `System`; `IsStream` states what a connected stream socket on which no call fails does.
-- Sync.Meeting and Sync.Session follow the two ends of one synchronization over streams that carry
-- what the other end sends, and Sync.Agreement compares the storages that it leaves. What a
-- synchronization uses beside the socket is the record `Host`, and `Counts` states how its
-- operations change the number of open sockets. Below the event loop the kernel is the record
-- `Kernel`, with `IsEpoll` for what epoll documents and `CountsOpen` for the number of open
-- descriptors, and `CountsConnection` for what the calls of a connection change of both.
-- `TracksProcesses` of Command.Descriptors has which descriptors are open, not only how many.
-- `Processes`, `SocketCalls` and `Connection` have the other system calls. JSON values
-- and `!=` on them are parameters, and so are the host name and whether the peer's address is a
-- loopback address. A configuration file is modelled by the document that the serializer library has
-- read from it.
--
-- Fuel: the loops of `recv` and `send` take one round more than there are bytes to move, which
-- always ends them since a round that goes on has moved a byte.
--
-- A descriptor of the event loop is a `System` in Awaitable.Transfers, so that the transfers and the
-- synchronization run over it. The functions of the serializer library are the record `Serializer`,
-- with `IsSerializer` for what they document over an abstract type of written values. Cli.Daemon
-- takes the rounds of the daemon's loops in any order, each as a whole; Cli.Attempts has the
-- synchronizations that one round, or the command `sync`, makes.
--
-- A coroutine that is awaited is a direct call. What other coroutines do to the storage while a
-- synchronization waits for a call of the system is the function `meanwhile` of its `Host`, applied
-- at each such call: Cli.Daemon.Laws assumes that it keeps the storage well-formed, Sync.Session and
-- Sync.Agreement that it changes nothing and erases no type. The rounds of Cli.Daemon hold
-- well-formedness in the same way, each as a whole.
--
-- Not modelled: the release of memory, except in Task; the text of the log messages; the JSON text
-- and its parser, which belong to a library.
pub mod Prelude
pub mod Errors
pub mod EventLoop
pub mod Task
pub mod Awaitable
pub mod Command
pub mod Sockets
pub mod State
pub mod Wire
pub mod Sync
pub mod Neighbours
pub mod Stats
pub mod Serial
pub mod Timer
pub mod Cli
pub mod History
mod Tests
