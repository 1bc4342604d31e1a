-- ===== src/Lib.antt =====
-- A verification library for containerd-rs, a container runtime daemon that serves the Kubernetes
-- CRI: image pulls into a content store, layered snapshots, sandboxes and containers run by crun,
-- and streaming of exec, attach and port-forward over SPDY/3.1.
--
-- The parts that are modelled, each with its own files:
--
-- - Base: shared names, Boolean tests, byte strings, lists over the native numbers, results,
--   association lists and decimal texts.
-- - CoreTypes (crates/core-types/src/lib.rs): `Digest` with its text form and parser. SHA-256 and
--   the hex encoding are the interface `Sha256`.
-- - Content (crates/content/src/lib.rs): the content store. The disk is two association lists, for
--   `blobs/sha256` and `ingest`; the record `Io` says which system calls of a call succeed. Each
--   operation takes the store and returns it with its result. `Content.Writers` is the step
--   relation of the interleaved calls of many writers on one store.
-- - Snapshots (crates/snapshots/src/lib.rs and diff.rs): mount options, snapshot directories and
--   the layer application. `Snapshots.Files` is a file tree with symbolic links, in which the
--   kernel's resolution of a path is bounded, as the kernel bounds the links that it follows.
--   tar's `unpack_in` and the iteration of the archive are parameters, the decompressors too.
-- - Metadata (crates/metadata/src/lib.rs and records.rs): the store of records, one association
--   list for each table of redb, with serde_json as a pair of parameters; the records.
-- - Images (crates/images/src/identity.rs and gc.rs): chain ids, platforms, the choice of a
--   manifest, and the reclaiming of blobs and snapshots, which works on the content store and the
--   file tree above with the records of the metadata.
-- - Cri.Spdy (crates/cri/src/spdy.rs): the words and frames of the wire format, name/value blocks,
--   `parse_frame` and `write_frame`, and the connection's read loop as a state machine over the
--   buffer, the table of streams and the channels. zlib is the interface `NvCodec`. A panic is a
--   value, `panic`, so that a slice out of range shows in the results.
-- - Runtime (crates/runtime/src/crun.rs): the state that crun reports of a container.
-- - Runtime.Bundle (crates/runtime/src/bundle.rs): the runtime specification of a container, built as
--   `generate_spec` builds it: one file each for the request, the types of oci-spec, capabilities,
--   process arguments, namespaces, mounts, limits with devices, security, and the composition. The
--   host's files, its devices and the parsers are the interface `Host`.
-- - Runtime.Seccomp (crates/runtime/src/seccomp.rs): the default profile, resolved for an
--   architecture and a set of capabilities.
-- - Cri.Reconcile (crates/cri/src/server.rs, `reconcile`): the recovery after a restart, over the
--   metadata store and the interface `Env` of crun, the clock and the database's writes.
-- - Images.Hosts (crates/images/src/pull.rs): the registries that may be used over plain HTTP.
-- - Images.Pull (crates/images/src/pull.rs): `pull_with_options` from the config blob on, on the
--   content store; the registry client and the file tree of the snapshots are the interface `Client`.
-- - Images.Credentials (crates/images/src/dockercfg.rs, and `resolve_auth` of pull.rs): the
--   credentials of the node, over the interface `Node` of its files and helper programs.
-- - Cri.ImageService (crates/cri/src/server.rs): the image calls, over the metadata store, the content
--   store and the snapshots; `pull_with_options` is a field of its interface `Env`.
-- - Runtime.Cgroup (crates/runtime/src/cgroup.rs): the parsers of the files of a cgroup.
-- - Cri.Service and Cri.Convert (crates/cri/src/server.rs): what the calls of the runtime service
--   share, and the conversions between messages and records. Everything outside of the database
--   (crun, namespaces, files, processes, streams) is the interface `Host`, a part of `Env`.
-- - Cri.Sandboxes, Cri.Creation, Cri.Containers, Cri.Answers (crates/cri/src/server.rs): the calls of
--   sandboxes, `create_container`, the calls that change a container, and the calls that only answer,
--   with the statistics. `Pauses` says what other tasks do to the store while a stop waits.
-- - Cri.Locks (crates/cri/src/locks.rs): the registry of locks, as the steps of all its callers.
-- - Cri.Sessions (crates/cri/src/streaming.rs, `Sessions`): the pending sessions with their one-time
--   tokens, and the handles of running containers.
-- - Cri.References (crates/cri/src/server.rs): repository names and normal image references.
-- - Tests: witnesses at concrete inputs, with a toy hash, a codec that does not
--   compress and a toy encoding of records.
--
-- Bytes are native numbers and byte strings lists of them; words keep their wrap-around. The read
-- loop's inner loop runs on fuel, one more than the bytes in the buffer: a frame takes eight bytes
-- at least, so it is never used up, which is among the results. All other loops are structural.
--
-- Not modelled: the calls exec, exec_sync, attach and port_forward of the runtime service, the
-- supervision of a container's processes and streams, the creation of pod cgroups, the connections of
-- the streaming server, the calls of crun, the CNI networking, the fetch of manifests and the daemon's
-- start-up. They are mostly calls of other processes and libraries. Writing a bundle to disk only
-- makes a file. Relative symbolic links, permissions and the order of a table's entries are left out
-- of the models above.
pub mod Base
pub mod CoreTypes
pub mod Content
pub mod Snapshots
pub mod Metadata
pub mod Images
pub mod Runtime
pub mod Cri
mod Tests
