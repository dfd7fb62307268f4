-- ===== src/Lib.antt =====
-- The QoS planner: a server that takes reservations of read throughput on the OSTs of a Lustre file
-- system, and sets NRS rules on the machines of these OSTs while a reservation runs.
--
-- Parts, and how they interact. A job (Job) is a reservation. A scheduler (Scheduler) admits it
-- against a limit, books it in the schedule (Schedule) and registers it with the monitor (Monitor).
-- The monitor keeps the starts and the stops of jobs in a priority queue (Queue); at its time it
-- starts a job, by way of the rule manager (Rules), or stops it and takes it out of the schedule. The
-- rule manager finds the machine of an OST by way of two caches, and calls a rule setter. The cluster
-- state (Cluster) holds a rate for each OST, which the scheduler for dynamic workloads compares with.
-- The planner (Planner) serves the requests of clients (Message) with these parts.
--
-- Files and code, with the paths of the repository:
--   Common: booleans, options, lists, texts, association lists; no code of its own.
--   Job: src/common/Job.h. `Job`, its states, events and constructors.
--   Queue: src/common/JobPriorityQueue.h, .cpp. `up`, `down`, `push`, `pop`, `remove`, `peek` are Up,
--     Down, Push, Pop, Remove, Peek on an array of items; Bag: the items up to their order.
--   Schedule: src/common/MemoryScheduleState.h, .cpp. A store of jobs with the two maps of pointers;
--     `add_job`, `remove_job`, `update_job`, `reset`, `get_...` are the methods of the same names. State:
--     the abstract class of src/common/ScheduleState.h as a record of operations and laws.
--   Lustre: src/common/Lustre.h, .cpp. The queries that the other parts make, as a record of answers;
--     Local: the methods of LocalLustre under their names, which fill that record; Parse:
--     ParseOstsFromGetStripe, ParseOstsFromLfsOsts, ParseOstIpFromGetParamOsc; Regex:
--     the matching of std::regex_match that they call; Exec: `exec` of src/common/util.h.
--   Rules: src/common/RuleManager.h, .cpp. `set_rules` (SetRules), `remove_rules` (RemoveRules) and
--     their helpers; Rules/Cache: src/common/OstIdsConverter.cpp and OstIpsCache.cpp.
--   Monitor: src/common/JobMonitor.h, .cpp. `register_job`, `unregister_job`, `handle`, `start_job`,
--     `stop_job`, `init`, and `monitor_loop`, the inner loop of Monitor; Monitor/Threads: the set of
--     jobs in flight, as a step relation between threads; Monitor/Lifetime: Monitor and TearDown, as a
--     step relation.
--   Cluster: src/common/ClusterState.h, .cpp. `update` (Update), `get_ost_workload` (getOstState).
--     Threads: updateRepeatedly and TearDown, as a step relation.
--   Scheduler: src/common/JobSchedulerStaticWorkloads.cpp (Static) and JobSchedulerDynWorkloads.cpp
--     (Dynamic); Load: GetMaxLoadInTimeInterval of both; Limits: src/common/OSTLimitConfigParser.cpp;
--     Interface: the abstract class of src/common/JobScheduler.h, which both fill.
--   Message: src/common/rpc/proto/message.proto. What the getters of a request and a reply return.
--   Planner: src/common/Planner.h, .cpp. `serve_job_submission`, `serve_job_remove`,
--     `serve_list_jobs` are ServeJobSubmission, ServeJobRemove, ServeListJobs;
--     Lifecycle: the constructor, Init and TearDown.
--   Setter: the rule setters, src/common/RuleSetter.h, SSHRuleSetter.cpp, OssStubRuleSetter.cpp, and
--     src/oss_rule_server/OSSRuleServer.cpp, the server of the last one; OssServer: its object, its loop
--     and main.cpp. Retry: SendAndReceiveRequest.
--   Socket: the calls on a socket of type REP (parameters), and the loop that both servers run on it.
--   Server: src/server/Server.cpp. `serve` is Serve, `process_message` ProcessMessage.
--   Client: src/client. `try_reserve_resources`, `remove_reservation`, `list_reservations` are the
--     methods of Client.cpp, `add_filenames` and `build_...` the request builders; Program:
--     TryParseReqFile, StorageReqParser.cpp and main.cpp.
--   Formatter: src/common/ListJobsFormatter.cpp. `format` is Format.
--   System: the server process, as a step relation of messages from clients and events of the queue;
--     Drain: the inner loop of Monitor from such a state; Threads, Race: the threads of the monitor
--     and of the server, interleaved in smaller steps; Program: src/server/main.cpp; Bound:
--     the same with the socket of src/server/Server.h; Conversation, Table: a call of src/client/Client.cpp together with the server that it talks to.
--
-- Modelling. A method takes the state and returns the new one. `none` of `Option` is undefined
-- behaviour: an index out of bounds or a dangling pointer; `Returns P` says that a run has none of
-- it and that `P` holds of its result. In Client/Program, in Scheduler/Limits, and for the calls on a
-- socket of a server, it is an exception, which ends the program; `threw` is one in a start of the server.
-- Time points are numbers of ticks. A uint32 wraps modulo 2^32 where the code adds or multiplies.
-- Parameters are the answers of Lustre, the results of rule setters, the readings of the clock, the
-- order in which a hash map is visited, the contents of an uninitialised variable, the search of a
-- regular expression, what `popen` gives of a command, the polls of a socket, the encoding of messages, and the arithmetic of
-- `float`s. A method that holds a mutex throughout is one step; where the monitor waits for a job
-- in flight, the waiting is in Monitor/Threads. In System a whole message and a whole event are one
-- step each, but in System/Threads, where the pop of an item and its handling are two steps, and
-- the removal of a job is UnregisterJob and then RemoveJob of the schedule.
--
-- Fuel. `up` and `down` run on fuel that the callers set to the length of the array, which bounds
-- their depth. `read_output` has one round for each byte of the output and one more. `monitor_loop`
-- takes its fuel from the caller; two for each start in the queue, one for each stop, and one more are
-- enough. `serve_loop` runs for a number of rounds; one more than there are texts is enough.
--
-- Not modelled: logging, the reading of flags, ZeroMQ (src/common/communication is a copy of its
-- headers; of a socket of type REP it is a hypothesis that it receives and sends in turn), protobuf and
-- the generated code of src/common/rpc, what a command prints, and how long a thread sleeps.
pub mod Common
pub mod Job
pub mod Queue
pub mod Schedule
pub mod Lustre
pub mod Rules
pub mod Monitor
pub mod Cluster
pub mod Scheduler
pub mod Message
pub mod Planner
pub mod Retry
pub mod Setter
pub mod Server
pub mod Socket
pub mod System
pub mod Client
pub mod Formatter
