-- ===== src/Lib.antt =====
-- stplr: a sharded, replicated key-value store. A library of its models and their theorems.
--
-- A cluster (cluster.rs) routes each key by a hash to one of 4096 buckets, and each bucket to the
-- nodes that rendezvous hashing ranks first (partitioner.rs), on distinct racks where it can. A node
-- is a shard (shard.rs) over a store (store.rs). A change of membership runs a plan (reshard.rs)
-- chunk by chunk, while gates (guard.rs) keep operations out of the buckets on the move and a
-- journal (journal.rs) records which are done. Coordinators elect a leader by a lease (lease.rs).
-- Writes may come through a durable queue (ingest.rs), and changes go out by a log (changefeed.rs).
-- A shard process answers over HTTP (net.rs), behind a layer that checks tokens (rbac.rs), and over
-- the Redis protocol (resp.rs); a smart client (smart.rs) routes to the shards by itself.
--
-- Files, and the sources that they are about:
--   Base, Text, Word, Dict, Sort   lists, texts as code points and in UTF-8, integers of 32 and 64
--     bits with their wrap-around, and association lists, in which the order of a hash map plays
--     no part
--   Json, Json/Wire, StrDb, Client what the sources call: JSON values, an LMDB database of strings,
--     and the trait of src/client.rs with its in-process client. Json and StrDb are parameters, with
--     their documented behaviour as records of laws
--   Store, Store/*                 src/store.rs: the trait and its default methods over any store,
--     the laws that its clients use, and the in-memory store that keeps them
--   Partitioner, Partitioner/*     src/partitioner.rs: fnv1a, bucket_score, set_nodes, pick
--   Shard, Shard/*                 src/shard.rs, over any store
--   Lease, Lease/Election          src/lease.rs, and runs of requests that one shard serves
--   Reshard, Reshard/*             src/reshard.rs: plan_reshard
--   Guard, Guard/*                 src/guard.rs: each hold of the lock is a function, and the tasks
--     are a step relation with the tokens they hold
--   SeqKey, Ingest, Ingest/*       src/ingest.rs: the queue on its two databases. A crash keeps the
--     databases and loses the counters, which `open_queue` recovers
--   Changefeed, Changefeed/*       src/changefeed.rs: the log in memory and the log on LMDB
--   Journal, Cluster, Cluster/*    src/journal.rs and src/cluster.rs: routing, data plane, migration
--   Rbac, Config                   src/rbac.rs and the roles of src/config.rs
--   Lmdb, Lmdb/*                   src/lmdb.rs: the store on LMDB, over databases as in StrDb
--   Net.Queries, Net.Access        src/net.rs: query strings, and the access layers
--   Net.Server, Net.Remote         src/net.rs: the handlers behind the layers, and HttpShardClient
--   Metrics                        src/metrics.rs: the counters that the handlers raise
--   Resp, Resp/*                   src/resp.rs: requests, replies, options, commands, a connection
--   Smart, Smart/*                 src/smart.rs: the client's view, its refresh and its data plane
--   Examples, Examples/*           tests, and the theorems at concrete inputs
--
-- Time is an argument: an operation reads the clock once, as `now`. An `i64` is its bit pattern
-- below 2 ^ 64. Where the source panics on an index out of bounds a function gives `none`.
-- Fuel: `Store.scan_loop` gets one round more than there are entries, and `none` says that it ran
-- out; `chunks_of` gets the number of buckets, since a chunk takes at least one; `Resp.serve` gets
-- one round more than there are bytes, since a command takes at least one, and its clock gives the
-- time of a command by the bytes that are left. Elsewhere loops are structural.
--
-- Not modelled: TLS (src/tls.rs), the framed binary protocol (src/proto.rs), the coordinator's
-- loops (src/coord.rs) and start-up. Of src/net.rs the reading of queries and bodies, which the
-- web framework does, is a parameter, and so is the transport: a server that is asked answers. Of
-- src/lmdb.rs snapshots, cached handles and the sync at the end are left out, and calls of the
-- database succeed. Of src/resp.rs an allocation up to the limit of a vector is taken to succeed,
-- and one above it panics. Of src/metrics.rs the rendering is left out. In cluster.rs an operation
-- is a step that runs while its gate is open.
pub mod Base
pub mod Text
pub mod Word
pub mod Dict
pub mod Smart
pub mod Sort
pub mod Lease
pub mod Lmdb
pub mod Metrics
pub mod Net
pub mod Partitioner
pub mod Json
pub mod Store
pub mod Shard
pub mod Reshard
pub mod Resp
pub mod Guard
pub mod SeqKey
pub mod StrDb
pub mod Ingest
pub mod Examples
pub mod Changefeed
pub mod Rbac
pub mod Client
pub mod Journal
pub mod Cluster
pub mod Config
