-- ===== src/Lib.antt =====
-- refFalcon is an Open-Falcon monitoring system: agents report metrics to transfer, which sends
-- them to graph (storage) and to judge (alarms); hbs hands the rules out to judge and the agents;
-- nodata makes up values for counters that stopped reporting; aggregator computes metrics of
-- clusters; alarm turns the events of judge into messages. These files model the code that decides
-- something; servers, sockets, databases and configuration files are left out.
--
-- Prelude: the three outcomes of a Go call (a result, an error value, a panic), int64 with its
-- wrap-around, texts, and maps as association lists (a Go map has no order: a range over a map
-- visits it in the order of the list, and each theorem holds for every order). Float64: the
-- operations on float64 as a parameter of the code that computes with them; no law of floats is
-- assumed but where a theorem names it.
--
-- Judge is judge/store. Window is linkedlist.go: SafeLinkedList is the list of its values, newest
-- first; PushFrontAndMaintain is `push_front_and_maintain`, HistoryData is `history_data`. Func is
-- func.go: the nine structs are the constructors of `Function`, their methods Compute are
-- `compute` and the bodies under it, checkIsTriggered is `check_is_triggered`. Parse is
-- ParseFuncFromString and atois, over the bytes of the text, with the slices that Go checks at run
-- time. Alarm is sendEventIfNeed and what it calls, over the map g.LastEvents and the queue in
-- redis as a state that is passed on. Rules is the rest of judge.go, CheckStrategy,
-- CheckExpression and Judge. Store is history.go, judge/rpc/receiver.go and judge/cron/cleaner.go:
-- `push_item` is the map's PushFrontAndMaintain, `send` is Send over the 256 maps of
-- HistoryBigMap. Sync is judge/cron/strategy.go, which builds the maps of rules that Rules looks
-- up. Types holds the structs of common/model, which is not in the repository: the fields are
-- those that this code uses.
--
-- Hbs is GetStrategies of hbs/rpc/hbs.go with CalcInheritStrategies (Buckets) and ParentIds of
-- hbs/cache/strategies.go (Parents); the caches that it reads are arguments. Agents is
-- hbs/cache/agents.go and hbs/rpc/agent.go, with the calls of db.UpdateAgent recorded in the
-- state. A map with keys of type int is a list of pairs that `find` reads.
--
-- Nodata is nodata/judge (Judging: `judge_keys` is judge, the status map and the mocks are its
-- state) sendMock of nodata/sender/sender.go (Sending), and the item map of
-- nodata/collector/collector.go (Collecting), whose GetFirstItem is what judge reads.
--
-- Transfer is transfer: Receive is the loop of RecvMetricValues (transfer/receiver/rpc), Convert
-- and Push are the conversions and the three pushes of transfer/sender/sender.go, and
-- `send_attempts` the retry loop of transfer/sender/send_tasks.go. The items for judge are those
-- that Judge.Store receives.
--
-- Graph is graph. Linked is graph/store/linkedlist.go and Table is graph/store/store.go:
-- GraphItemMap is the list of its maps from keys to lists, the map of a key picked by the CRC of
-- Crc; a list holds its items newest first, and its flag. Keys is graph/g/utils.go and getIndex of
-- graph/rrdtool/utils.go. History is graph/store/history.go, Index the two caches of graph/index
-- and the incremental update. Receive is handleItems of graph/api/graph.go; Flush is
-- graph/rrdtool/rrdtool.go and graph/rrdtool/sync_disk.go: what is given to the workers of the
-- disk, and at which tick. Query is Query of graph/api/graph.go (Merge: the loops that join the
-- cached items and the points of the file), Api the other calls of it. The records Memory
-- (Receive) and Disk (Flush) hold the parts of the state that these functions change: the table,
-- the caches of the index and of the history, and what was handed to the workers.
--
-- Alarm is alarm/cron: Messages the texts and the queues of alarm/redi, Consume the events,
-- Combine the three combiners, which read the queues that Consume fills.
--
-- Aggregator is aggregator/cron: Expression and Run are run.go, computer.go and query.go
-- (WorkerRun is `worker_run`, whose result is what it pushes), Workers is worker.go and
-- updater.go.
--
-- Loops over lists are structural; loops over an index count rounds, and the number of rounds is
-- the bound in the Go code. Some loops have a fuel: sendMock, which need not end, the number of
-- mocks, each round taking at least one; the loops of Query over times one round for each second
-- from the start to the end, which is enough if the step is at least 1 and the last time is more
-- than a step before 2^63 (closer to it the time in graph/api/graph.go wraps around and the loop
-- over the items in memory does not end, which the model does not follow); the digits of a number one
-- more than the number; the sum of counters in an expression the length of the text. An index out
-- of range is `panic`. Each function is one goroutine's run: the mutexes make the calls on one
-- list atomic, and what two goroutines may do between two calls is not modelled.
--
-- Code outside the repository is a parameter: Env (the configuration, the methods of an event, its
-- JSON text, PrimaryKey), Stats (mean and standard deviation), SortedTags, the limited lists of
-- nodata and of graph, the HTTP post of a batch, Cluster (the rings of nodes, the limited queues),
-- the database, the files and the clock of graph, the services of users and of links of alarm, and
-- the API that aggregator asks for hosts and points.
--
-- Not modelled: the agent, the api, dinghook and falcon-message, which are I/O around outside
-- libraries; the gateway, which is a second transfer; the migration of graph to other nodes; the
-- statements to databases.
pub mod Prelude
pub mod Float64
pub mod Judge
pub mod Hbs
pub mod Nodata
pub mod Transfer
pub mod Graph
pub mod Alarm
pub mod Aggregator
