-- ===== src/Lib.antt =====
-- Veracruz runs programs on the secrets of several parties inside an enclave. A global policy says
-- who the parties are, which programs may run, and what each may do with which file; the runtime
-- manager holds a TLS session with each client and answers the requests that come in it, and every
-- file lives in a virtual file system that checks rights like those of WASI. This library models
-- these parts and proves what makes them safe.
--
-- The parts, and the files that model them:
-- - execution-engine/src/fs.rs, the virtual file system: Vfs. `InodeImpl` is Vfs/Impl, `InodeEntry`
--   Vfs/Entry, `InodeTable` Vfs/Table, the state of `FileSystem` with its descriptors Vfs/Handle,
--   its `fd_` calls Vfs/File, its `path_` calls Vfs/Directory, and the calls of the runtime manager
--   Vfs/Public. Vfs/Integrity is the invariant of the inode table, Vfs/Soundness that of a handle;
--   Vfs/Mediation is about rights that are missing, Vfs/Opening about rights that are given,
--   Vfs/Roundtrip about contents, Vfs/Limits about what the calls do not do.
-- - policy-utils/src: Policy. principal.rs is Policy/Principal, expiry.rs Policy/Expiry, policy.rs
--   Policy/Contract; Policy/Validity is about the checks,
--   Policy/Rights and Policy/Inputs about the tables that are derived.
-- - execution-engine/src/native_modules: Native. Both services are Native/Modules; Native/Safety is
--   about what they do to handles.
-- - execution-engine/src/wasi: Host. `MemoryHandler` of common.rs with the slices of wasmi.rs is
--   Host/Memory, `WasiWrapper` Host/Wrapper and Host/Calls, with the calls that list directories in
--   Host/Listing and those on sockets and the polling in Host/Sockets; Host/Traces has programs as
--   sequences of calls, Host/Bounds is about linear memory, and Host/Frame, Host/Queries,
--   Host/Inquiries and Host/Safety are about the file system under the calls of a program.
-- - transport-protocol: Transport. The messages of protos/transport_protocol.proto are
--   Transport/Messages and Transport/Sgx; of src/custom.rs, the prefix and the buffers are
--   Transport/Framing (the bytes of a number Transport/Numbers), the functions that serialize
--   Transport/Serializing, those that parse Transport/Parsing; Transport/Reassembly is about
--   chunks, Transport/Roundtrip about messages that are sent and parsed.
-- - session-manager/src: Session. session_context.rs is Session/Context, session.rs
--   Session/Connection; Session/Clients is about the client of a session, Session/Configuration
--   about the policy and the certificates, Session/Sending about the loop over the input.
-- - runtime-manager/src/managers: Runtime. mod.rs is Runtime/Protocol, execution_engine_manager.rs
--   Runtime/Dispatch and Runtime/Incoming, session_manager.rs Runtime/Sessions; Runtime/Guards and
--   Runtime/Strangers are about what they refuse, Runtime/Chunks about requests in chunks,
--   Runtime/Soundness about sequences of requests and of calls of the platform.
-- Base holds the helpers, Hoare the triples, Wasi the vocabulary of the crate `wasi_types`;
-- Examples, Scenarios, Witnesses, Connections and Programs are concrete runs.
--
-- How they interact: the bytes of a session go through TLS into the buffer of the session, and a
-- buffer that is complete is parsed and dispatched for the client of the session, on the protocol
-- state; the encoded response goes back into the session. The runtime manager derives the table of
-- rights from the policy and makes the inode table with it; for each request it spawns a handle of
-- the client on the shared inode table. A program calls the file system through its linear memory,
-- where the arguments and the results are. All handles share the table behind an `Arc<Mutex<_>>`:
-- `Public.share` and `Public.on_handle` put what one handle leaves there into the other. A lock is
-- free when it is asked for, since one thread runs, but for the lock of a service that is held
-- while the service runs.
--
-- What the model chooses. A method that mutates is a function on the state that gives `ok`, an
-- error or `abort`, which stands for a panic or a lock that is never given, with the state as it is
-- left. The release build is modelled: arithmetic of machine words wraps (`% 2 ^ w`), and debug
-- assertions are absent. `Vec::resize` aborts from 2^63 bytes on. A `HashMap` is an association
-- list whose order stands for the order of iteration. A path is the list of its components.
-- `ancestors` runs on the length of a path as fuel, which is enough since each step takes one
-- component away; `send_from` runs on the length of the input, and runs out where TLS takes no
-- bytes. The services may write to the files of one another, and `native` takes the depth to which
-- such calls are nested: a service below that depth aborts, and as the two services are locked
-- while they run, no run of the code goes deeper than two.
--
-- Parameters: the flags of `wasi_types` (`Wasi`), the services behind `dyn Service` (`Services`),
-- the libraries that the two services call (`Libraries`), the execution engine (`Engine`), the
-- digest, hexadecimal text and JSON (`Codecs`), the generated codec of a message type (`Codec`),
-- and rustls with its certificates and keys (`Tls`), and the decoding of arguments, the layout of
-- structures, the clock and the random bytes of the platform (`Host`).
--
-- Not modelled: the engines wasmi and wasmtime and the tables of their imports, the tracing of
-- calls, the locks of the statics, which are free in one thread, the entry points of the enclaves,
-- servers and clients, attestation, and `read_all_files_by_absolute_path`; most of these are
-- third-party code or input and output, and the others are left for later. What `cfg(features =
-- "std")` guards is in no build and left out. As a path is its components, a key of a table of
-- rights that spells the path of a standard stream with redundant separators counts as that stream
-- in `is_std_path`.
pub mod Base
pub mod Wasi
pub mod Hoare
pub mod Policy
pub mod Vfs
pub mod Native
pub mod Transport
pub mod Session
pub mod Runtime
pub mod Host
pub mod Examples
pub mod Scenarios
pub mod Witnesses
pub mod Connections
pub mod Programs
