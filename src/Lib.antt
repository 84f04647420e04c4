-- ===== src/Lib.antt =====
-- Roshi (RDL-Libraries/roshi), a time-series event store over Redis: a farm of independent clusters
-- of Redis instances holds for every key a set of members with scores, as a last-writer-wins set.
-- A write goes to all clusters and succeeds with a quorum; a read takes the union of what the
-- clusters answer and repairs the key-members on which they differ.
--
-- The parts, from the bottom:
-- - Redis, Redis/Sorted: the commands on sorted sets that the program relies on, as an interface of
--   operations and laws, and sorted lists that fill it. Redis itself is not in the repository.
-- - Common: the types of common/. A byte string is a list of numbers; a score is an integer that
--   orders as the bits of its float64 do, since the program only compares scores; NaN is left out.
--   Common/Cursors: the text of a cursor, with Common/Digits and Common/Base64.
-- - Cluster/Script: genericScript of cluster/cluster.go, with its two instances insertScript and
--   deleteScript. `script` is one call on the sets key+ and key- of a key, `max_size` is maxSize.
--   It follows the script also for equal scores, where README.md differs.
--   Script/Invariant, Script/Register and Script/Capacity hold what is proved of it.
-- - Cluster/Conn, Cluster/Pipeline: pipelineInsert, pipelineDelete, pipelineScore and pipelineRange,
--   on a connection that can fail at each send, at the flush and at each reply.
-- - Cluster/Range: pipelineRangeByScore. Its loop runs at most four times, so its fuel is
--   maxAttempts itself.
-- - Cluster/Buckets, Cluster/Scatter, Cluster/Score: the bucketize, scatter and gather of Insert,
--   Delete and Score. The order in which the goroutines answer is a parameter, any permutation.
-- - Cluster/Keys: the scan of the keys of all instances, over the attempts at each instance; a list of
--   attempts that runs out stands for a scan that still goes on. Walker: scan and walkOnce of
--   roshi-walker/main.go, and Walker/Keyspace the walk over what Keys sends.
-- - Cluster/Interleavings: dfs of cluster/DFS.go, which prints the orders of the events of an
--   experiment; its fuel is the number of the events, which is the depth of the calls.
--   Interleavings/Random: randomInterleave of cluster/RandomIntls.go. The random numbers of every round
--   are given; a list of rounds that runs out stands for a loop that still runs.
-- - Pool/Connections: connection_pool.go. A section under the mutex is one step, and
--   Pool/Connections/Steps runs any number of goroutines over these steps in any interleaving.
--   Pool/Sharding: pool.go. What a connection is, its Err and its Close are parameters, as are the
--   hash and the outcome of a dial. Pool/Hashes: hashes.go, on words below 2^32; Hashes/Words has the
--   bit operations, and Hashes/Reference the hash by recursion on the bytes.
-- - Farm/Write: write of farm/farm.go, on the answers of the clusters in their order of arrival.
--   Farm/Quorum: Insert and Delete of the farm over clusters of Cluster/Scatter.
-- - Farm/Sets, Farm/Union: tupleSet, keyMemberSet and unionDifference. A Go map is a list without
--   repetitions; its order stands for one of the orders in which Go may range over the map. The
--   sort of orderedLimitedSlice is a parameter.
-- - Farm/Repair: AllRepairs of farm/repair_strategies.go: the presences collected from the
--   clusters, the state taken for correct, and the inserts and deletes planned. Repair/Converge
--   runs the plan for one key-member on clusters of `script`. Repair/Permits: the permitters and
--   RateLimited, over an interface of the token bucket of package tb; Repair/Nonblocking: the
--   buffered channel, with callers and goroutine in any interleaving.
-- - Farm/Reads: the read strategies of farm/read_strategies.go. SendVarReadFirstLinger is a state
--   machine over the events that its select statement receives (Farm/Reads/Linger); the loop of the
--   code has no bound, and a list of events that runs out stands for a loop that still waits.
-- - Cluster/Select: SelectOffset, SelectRange and selectCommon, with the elements of all instances.
-- - Farm/Declaration: parse_farm_string.go; Common/Digits has the numbers that it and the server read.
-- - Server: the requests of roshi-server/main.go, as functions to the response. The sort, the decoding
--   of the body, math.MaxFloat64 and the selecter are parameters; so is the rounding
--   of Server/Percentage (evaluateScalarPercentage), which the code does in floating point.
--   Server/Order has the orders of the two Less functions, Server/Pages the pages cut from them;
--   Server/Start: newFarm, the farm as its clusters and its write quorum.
-- - Instrumentation: the methods of instrumentation/ as reports, and what its targets make of them.
-- - Counter: the counter of RDL-Libraries/Go_RDL/Library (pncounter.go) with its messages, and
--   Counter/Replicas any number of replicas, each with a host list of all the others, that broadcast
--   (client.go) and merge (server.go). An Inc, a Dec and a Merge are one step each, and
--   since Merge does not lock, so is one way in which an overlapping Merge loses updates. A Go int is its bit pattern, below 2^64; encoding/json is
--   a parameter that reads back lists of ASCII strings that it wrote. Counter/Actions and Counter/Schedule: do_actions of
--   server.go, one action at a replica, and all replicas on the logical time that they share, one of
--   which a delay ends.
-- - Base: names of the libraries, Boolean tests, scores, lists and association lists. Tests: runs.
--
-- Not modelled: logs, and where metrics are reported, except in write; the time itself, of which only
-- the timeout event is left; the vendored packages; the reading of event files; main of roshi-server
-- and roshi-walker and the HTTP encoding; the Lua and Redis wire formats below the commands; and the parts of the repository
-- that are not in Go.
pub mod Base
pub mod Common
pub mod Redis
pub mod Pool
pub mod Cluster
pub mod Farm
pub mod Server
pub mod Walker
pub mod Counter
pub mod Instrumentation
pub mod Tests
