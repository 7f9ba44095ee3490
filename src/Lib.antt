-- ===== src/Lib.antt =====
-- KeyValueClusterPerf: a benchmark of a key-value database, run by one controller over many
-- workers.
--
-- A process is a controller or a worker. The controller (src/SimulationController.cc) has a command
-- connection to each worker and sends INIT, GO, GETRESULTS and EXIT, to each of which a worker
-- (src/SimulationWorker.cc) replies. On INIT a worker makes a connector (src/DBConnector.cc); on GO
-- the connector loads the ROOT files below a directory, puts each to the database behind a broker
-- and gets it back, and counts; on GETRESULTS the worker writes the counts as a text of `key=value`
-- lines (src/ConfigurationManager.cc) into an array of 1024 bytes, which the controller fetches
-- over a connection of its own (src/MQ.cc), parses, and in the end writes to a file for all
-- workers.
--
-- Files and sources (paths from the repository's root):
--   Base, with children: names of the libraries, tests on numbers, lists, texts as lists of bytes,
--     integers over the native numbers.
--   StdMap: std::map<string, string> as the list of its entries in the order of their keys.
--   Configuration: src/ConfigurationManager.cc: readString is read_string, writeString is
--     write_string, readFile, writeFile and readHostFile likewise.
--   Buffer: char arrays with strcpy, memcpy, an indexed write and string(buffer).
--   Decimal: the decimal texts that a stringstream writes of integers.
--   Mq: src/MQ.cc, one function for each method, over the states of its two pointers and the number
--     of sockets that the library holds open, for which zmq_ctx_destroy waits; Outcome, for code
--     that may end the process, wait for ever, or do what is undefined.
--   Broker: the interfaces to the protobuf messages, to the broker and to the database behind it.
--   Transfer: sendDataToController and receiveDataFromWorker, from array to array; Ends: how each
--     comes to its end. A message whose socket is not bound is never sent.
--   Connector: src/DBConnector.cc: load, putValue, getValue, run; Objects: create; Order, Bag: the
--     order of the files; Lifetime: its constructor and destructor; Results: its getResults.
--   Worker: src/SimulationWorker.cc: handle_command is the body of the loop of run, listen the
--     loop, run in Worker/Run the method; construct is the constructor of a connector, which INIT
--     calls, and which may end the process or do what is undefined; Setup: INIT; Standing,
--     Discipline: the pointer to the connector, and the protobuf library that its destructor
--     shuts down.
--   Controller: src/SimulationController.cc: run, sendAllNodes, getAllNodes, mergeResults, the
--     destructor; collect is the loop that fetches the results.
--   Cluster: the controller over workers whose sessions are those of Worker.
--   Network: the controller and the workers as processes that run at the same time, as a step
--     relation: session is the list of the calls of SimulationController::run, a step of a
--     worker one round of its loop. Stages, Sites, Calls and Rounds: what each does to one
--     connection; Program: the list of calls; Staged, Invariant, Preserved: what all reached
--     states have; Totals, Progress, Liveness: the steps that are left; Collected, Refinement:
--     the results; Shared, Database: what the workers leave in the database. Requests: the
--     loops of several connectors, whose requests take turns. Interleaved: both together, a
--     worker being in the loop of its connector while the others move; Mirror: the state of
--     Network that such a state stands for; Go, Invariant, Loops, Replies, Reached: what all
--     reached states have; Outcome, Moves, Ends: results and steps; Silent: a worker that never
--     moves. Lingering: the same, where a worker waits in sendDataToController until its
--     message is taken.
--   Launcher: src/KeyValueClusterPerf.cc, and the struct of src/ConfigurationManager.h; Distinct,
--     Apart: its data addresses differ; Benchmark: the program with Network/Interleaved;
--     Places, Workers: the nodes and ports, and the workers that are started there.
--   Workload: the access patterns (src/RandomAccessPattern.cc and the three others) and
--     src/ConstantValueDistribution.cc.
--   Database: src/KeyValueDB.cc and the classes below it, src/MessageSender.cc in Database/Sender,
--     and the loop burnInOut of src/DBConnector.cc.
--   Simulator: src/Simulator.cc, which the build file does not list; Object: its methods with their
--     clocks; Statistics: sequences of calls of them. Its constructors are left out.
--   Samples, and a module Tests in each part: concrete libraries and inputs, at which the theorems
--     with assumptions are applied.
--
-- Parameters. What is not code of this repository is an argument: the results of the ZeroMQ calls
-- and the address at which a bound socket is reached, the protobuf codec (parsing undoes
-- serialisation), the broker (one reply to each request) and, where a theorem says so, that it
-- stores what it is sent; the random numbers, the hashes, the operations on doubles and time
-- durations with their texts, the host's name, the entries of the directory with the bytes that
-- ROOT makes of them, ROOT's TBufferFile, the parsed options and XML files. Memory that the code
-- does not initialise is an argument too.
--
-- Numbers and bounds. Unsigned counters wrap at 2^32 or 2^64, the overflow of an int is undefined
-- and written as such. Total sizes and the byte limit of the connector, doubles in the source, are
-- whole numbers: sums of sizes below 2^53 are exact as doubles. No function of the development runs
-- on fuel: each loop is over a list, or over the number of its rounds, which is computed from the
-- bounds that the source tests.
--
-- Order of events. In Worker and Controller one process runs alone, over what the others have sent
-- or will send. In Network any of them may move next: a queue keeps the order and loses nothing, a
-- round of a worker is one step, in which its requests to the broker, which all workers share, are
-- not mixed with those of another, and its data message and its reply leave at once. In
-- Network/Requests they are mixed: a step is one request of one connector. Network/Interleaved has
-- both: a GO begins, makes its requests and replies in steps of its own. In Network/Lingering the
-- worker that has sent its data message does no more until the controller has taken it.
-- Everywhere a worker whose command socket is not bound gets no command, all workers run in one
-- World, with one host name, byte limit and value size, and the time that the transfer of a file
-- takes is given with the file.
--
-- Not modelled: output to the terminal and the log macros; src/sha1.cc, src/vmac.c and
-- src/rijndael-alg-fst.c, copies of public libraries.
mod Base
pub mod StdMap
pub mod Configuration
pub mod Buffer
pub mod Decimal
pub mod Mq
pub mod Broker
pub mod Transfer
pub mod Connector
pub mod Results
pub mod Worker
pub mod Controller
pub mod Cluster
pub mod Network
pub mod Launcher
pub mod Workload
pub mod Database
pub mod Simulator
mod Samples
