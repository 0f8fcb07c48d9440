-- ===== src/Lib.antt =====
-- Verification library of LaserDB: the service router of the Go SDK, the Laser client that stands
-- on it, and the control service's assignment of shards.
--
-- A process that calls a Laser service finds it through `sdk/go/common/service_router`. The
-- registry reads the servers of a service from Consul and notifies the router database; the
-- database files them under the keys of the shards and partitions that they serve; a load balancer
-- picks one of the servers under a key; a connection pool per address lends the connection over
-- which the call is made. The client in `sdk/go/laser_client` turns a key of a table into a
-- partition and a partition into a shard, by the tables that the registry's notices bring; it asks
-- the router for a server of the shard, or of the partition on an edge node, and calls it until it
-- answers or the retries are used up. A batch of keys is grouped by the servers that they go to, and
-- the answers are put together in the order of the batch. The control service in `control/service`
-- assigns the shards of a cluster to the nodes of its groups and stores the assignment as a version,
-- and deals the shards of a table out to lists.
--
-- Files:
--   Base: lists, maps as association lists, the results of code that can panic or loop, machine
--     words and the integers on the native numbers.
--   ServiceRouter/Server: the types of registry.go and router.go that the parts share.
--   ServiceRouter/LoadBalance: load_balance.go. Ip is `IpToInt`; Simple the random and the round
--     robin balancer; Near `LocalFirst` and `IpRangeFirst`; StaticWeight and ConfigurableWeight
--     the weighted ones. A `Select` returns an option for its server and its Boolean.
--   ServiceRouter/Pool: pool.go. `advance` runs a goroutine from one `Lock` to the `Unlock` that
--     follows, `close` is `Close`, Options is `NewPool`; System has the goroutines and the pool
--     together, whose steps interleave: `Reach` is any order in which nothing is closed twice.
--   ServiceRouter/RouterDb: router_db.go, one function per method.
--   ServiceRouter/Node: node.go, the keys of a service in the store.
--   ServiceRouter/Registry: registry.go. The parent has subscriptions, `Discover` and `GetConfig`;
--     Registration has the writes. A method that notifies subscribers returns the notices.
--   ServiceRouter/Ticking: service_puller.go and service_pusher.go; `Timer` is what both have,
--     `section` runs a call of `Stop`, `Restart` or `Reload` from one statement to the next.
--   ServiceRouter/Router: router.go. The parent routes calls, Found joins it to the database, Timers
--     is `ConfigNotify` and the pushers.
--   LaserClient/Partition: partition.go and format.go of `sdk/go/laser_client/lib`.
--   LaserClient/ConfigManager: config_manager.go there; `config_notify` is `ConfigNotify`.
--   LaserClient/Thrift: the types of `if/laser` there that the client reads; a `Request` is a method
--     of the thrift service with its arguments.
--   LaserClient/Options: the options of a call and their check, from laser_client.go.
--   LaserClient/Calls: `commonCallWithRouteId`. A `Network` is what the client does not control, a
--     `Session` the state that calls change. Returns and Outcomes are about all of its runs.
--   LaserClient/Routing: `getRouteInfo` and `commonCall`; Errors is about commands.
--   LaserClient/Commands: one function for each command of one key, `get_sync` for `GetSync`.
--   LaserClient/Grouping: `group`. Grouped is about its loop over keys, Moved about the keys that
--     are moved from the edge nodes to shards, Discovered and Collected about the rest; Carried is
--     about what the keys take with them.
--   LaserClient/Multi: `mset` and `mget`, where `moves` is the order in which their goroutines write
--     and copy the options that they share; Commands has `MsetSync`, `MsetDetailSync`,
--     `MgetDetailSync` and `MgetSync`, Placed, Answers, Reads and Refined say what these return.
--   Control/TableShardAssigner: table_shard_assigner.go; a sum of metrics is a uint64. Totals is
--     about sums and counts, Dealt about dealing by a metric.
--   Control/ShardManager: shard_manager.go; `assign_shards` is `AssignShards`, `Numbers` the state of
--     the loop of `shardNumber`. Allowed is about the numbers, Fresh and Groups are about the first
--     assignment to the nodes of a role and of a group. Version has the stored versions:
--     `convertNodeShardsToShardStore` and `convertVersionToNodeShards`; Stored is about their loops,
--     Restored and RoundTrip about both together, and Cluster is `UpdateClusterInfo`.
--   Examples: the definitions at concrete inputs.
--
-- Bounds and fuel: words keep their wrap-around written out (32 bits in addresses and sums of
-- weights, 64 bits in counters, times and hashes). The loop of the configurable weights runs on
-- fuel; the fuel that is enough, (w + 3) * n for a weight w and n servers, is part of its theorem.
-- The loops of a call run on fuel too: ConnectionRetry + 1 discoveries and TimeoutRetry + 1 calls
-- are enough, as its theorem says. `Gcd` recurses on its divisor. The five digits of a port are
-- enough for a uint16. All other loops are structural.
--
-- Parameters: the city hash, random draws and primes, the conversion of floats to int32, the
-- answers of connections, of their factory and of the clock, the Consul store, the JSON format, a
-- balancer's choice in the router, the connections, answers, timeouts and draws of the client, and
-- the sorts and metrics of the shard assigner and the shares and sorts of the shard manager.
--
-- Not modelled: locks around single operations, metrics, the pullers that a call creates on its
-- way, the HTTP handlers, the sockets and the serialisation of Thrift, what the goroutine of a call
-- does after its timeout, the rest of the control service, and the C++, Java and
-- web parts of the repository.
pub mod Base
pub mod ServiceRouter
pub mod LaserClient
pub mod Control
pub mod Examples
