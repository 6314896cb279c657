-- ===== src/Lib.antt =====
-- graph_store: a graph database that keeps its nodes and edges in memory, behind a log and a
-- checkpoint on a block device.
--
-- The parts and how they interact. `LoggedStore` (src/db/logged_store.cc) writes an entry for each
-- change to the log of `LogManager` (src/db/log_manager.cc) and then changes its `MemoryStore`
-- (src/db/memory_store.cc), whose nodes are those of src/db/types.cc. `CheckpointManager`
-- (src/db/checkpoint_manager.cc) writes the whole store to the device and reads it back. Both
-- managers use the blocks of `BufferManager` (src/io/buffer_manager.cc). A restart restores the
-- checkpoint and replays the log. `HTTPController` (src/net/http_controller.cc) answers the requests
-- of clients. A write goes through `ReplicationManager` (src/db/replication_manager.cc) to a chain of
-- replicas and then to the store here, and an edge between two partitions through `PartitionManager`
-- (src/db/partition/partition_manager.cc) to the other one.
--
-- Which file models which part:
--   Prelude               numbers, Boolean tests and lists
--   Util/Status           src/util/status.h
--   Util/Outcome          src/util/assert.h: `exited` is the exit of the process by `invariant`
--   Io/Words, Io/Device   src/io/buffer_manager.cc and buffer.cc: blocks of 64-bit words
--   Db/IdSet, Db/Types    src/db/types.h and types.cc: `Node` and its set of edges
--   Db/NodeMap            the std::map of src/db/memory_store.h, in the order of signed keys
--   Db/MemoryStore        src/db/memory_store.cc; the methods keep their names
--     View, Graph, Simulation     what a client observes, and the abstract graph
--     Invariant                   the well-formed states
--     Nodes, Edges, Refinement    each operation and whole runs against the abstract graph
--     Queries, Parts              the methods that read; addEdgePart and removeEdgePart
--     ShortestPath                shortestPath: Expand is one level of the search, Walk its
--                                 invariant, Correct its answer
--   Db/Log                src/db/log_manager.cc
--     Checksum, Layout, Entry, SuperBlock, LogBlock    the layout of a block
--     Manager                     `LogManager`: `init` is open_log
--     Reader                      `LogManager::Reader`
--     Segment                     the entries of a log and its invariant
--     Append, Extend, Operation   logOperation
--     Replay, Generation, Count   reading; format, increaseGeneration and init; how many entries fit
--   Db/Checkpoint         src/db/checkpoint_manager.cc: `CheckpointManager`, `BlockWriter` and
--                         `BlockReader`; `init` is open_checkpoint
--     Word, Stream                one word and many words, written and read
--     Restore, Entries, RoundTrip what comes out of an image, and of the image of a store
--   Db/LoggedStore        src/db/logged_store.cc: the constructor is format_store or open_store, by
--                         its argument formatLog, and `checkpoint` is take_checkpoint
--     Recovery                    recover
--     Durability, Progress        one call and sequences of calls
--     Returns, Restart            that calls return; a restart
--     Persistence                 the graph of a client after a restart
--     Checkpointed, Resumed       checkpoint; calls and a restart after it
--   Db/GraphStore         src/db/graph_store.h, as a record of methods with its two classes;
--                         Contract has what an implementation promises, Idle the operations that
--                         leave the graph as it is
--   Db/Replication        src/db/replication_manager.cc, src/net/replication_server.cc and
--                         replication_outbound.cc; Agreement and Answers are about the graphs of
--                         the replicas
--   Db/Partition          src/db/partition: Manager has the choice of partition and connection,
--                         Remote the calls of other partitions and their handler in
--                         src/net/partition_server.cc
--   Net/Request, Response, Controller     src/net/http_controller.cc: the ids of a request, the
--                         replies, and the handlers of writes
--     Queries, Dispatch           the handlers that read, checkpoint, and the routes
--     Specification, Writes       the replies and graphs that a client of a chain gets
--     Edges                       edges between two partitions
--   Client/FillLog        test/integration/fill_log.py, over a server that is a parameter
--   Client/Serve          HTTPController::add_node as the client's server, and a controller of a logged
--                         store, which main.cc does not build
--   Client/Filled         the client against such a controller
--   Scons                 the build engine that the repository carries and its SConstruct file runs,
--                         scons/scons-local-2.5.0/SCons
--     Node                        Node/__init__.py: the attributes that the task master uses
--     Children, Changed, Walker   its lists of children, whether it has changed, and the walk over
--                                 its children
--     Executor                    Executor.py and uniquer_hashables of Util.py; Changes has
--                                 _get_changes and execute_action_list
--     UniqueList                  UniqueList of Util.py
--     Unvisited                   a measure for searches
--     Taskmaster/State, Flush     Taskmaster.py: `Taskmaster` and will_not_build; Flush/Failed,
--                                 Pending and Ends are about will_not_build after a failure
--     Taskmaster/Walk             find_next_candidate and _find_next_ready_node; Ready and
--                                 Returned are about the node it returns, Passed about those
--                                 it passes over, Measure to Ends about its rounds
--     Taskmaster/Task, Postprocess, Tasks     `Task`, and next_task
--     Taskmaster/Cycle            find_cycle and cleanup
--     Job                         Job.py: `Jobs`, `Serial`, and `Parallel` as steps on its queues
--   Db/MemoryStore/Examples, Db/Checkpoint/Examples, Db/LoggedStore/Examples,
--   Db/LoggedStore/CheckpointExamples, Db/Partition/Examples,
--   Db/Replication/Examples, Net/Examples, Client/Examples, Scons/Examples, Scons/ListExamples
--                         the theorems at concrete stores
--
-- State is passed along: a method that writes to the device returns it. The locks of the program are
-- held through each method, so that a method is one step, and two threads' calls are a sequence of
-- such steps.
--
-- Bounds and fuel. An id is the 64-bit pattern of an int64_t. Fields of 32 bits wrap at 2^32, and
-- the theorems on the log take a device of less than 2^32 blocks, as the numbers of its blocks stand
-- in such fields. The loop of shortestPath runs on fuel, two more than the number of nodes, as each
-- round but the first and the last finds a node; the loop of recover on one more than the log's
-- blocks have room for, as each round takes an entry; the loop of the client on a number of rounds
-- that is a parameter. Where the fuel ran out the model would return `none`.
--
-- The build engine. A node is an id, and its attributes are in a store. What does not change in a
-- build, the scanners, the decider, the actions and the cache are the record `Engine`, a parameter;
-- a scan and an action see the store. Sets are lists without repetition, and the loops over them
-- take the order of the list. The loops of will_not_build, _find_next_ready_node, find_cycle and
-- Serial.start run on fuel: the waiting parents of all nodes bound the first and the third, the
-- candidates, the targets and the children of nodes without a state the second. A parallel job is a
-- step relation: the main thread, a worker or a signal takes a step, in any order, and what the job
-- asks of a task master is the record `Master`.
--
-- A durable store (`IsDurable`, Db/LoggedStore/Durability) is one whose log is in its invariant and
-- has not reached the block of the checkpoint's superblock, whose superblock is the one on the
-- device and holds no image that recover would restore, and whose log leads from the empty store to
-- the store in memory.
--
-- The servers. A chain of replicas is the list of their states, and a call of a successor is a
-- parameter that takes these to their next states; so is the call of another partition. A call that
-- raises an exception makes the process exit. One request is answered before the next one comes.
--
-- Not modelled: transfers that the operating system refuses (the process exits), the sockets and the
-- generated code of src/net, calls that are lost, the JSON and HTTP libraries (the first is a
-- parameter), the entry point src/main.cc, the copies of libraries under lib, and of
-- the build tool under scons all but the engine above: traces, statistics, messages, file nodes,
-- builders, environments, tools and scanners.
pub mod Prelude
pub mod Util
pub mod Io
pub mod Db
pub mod Client
pub mod Net
pub mod Scons
