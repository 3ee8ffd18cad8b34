-- ===== src/Lib.antt =====
-- ezcap watches network connections and browser navigations on one machine, ties the two together
-- where there is evidence, redacts what it reports, and serves the result to a browser extension
-- over a local socket. A packet comes in through the capture code, is parsed to metadata, becomes
-- an event, is correlated with the navigations that the browser reported, passes the policy
-- engine, and goes to the clients of the socket server. The development models the decisions on
-- that way, written from the sources function by function and with their names.
--
-- Base: texts and frames are lists of byte values; numbers are natural numbers, and a machine word
-- keeps its wrap-around written out (`% 2 ^ w`). Base.Bytes has what is used of std::string (find,
-- find_last_of, substr), Base.Result the results of functions that return false with an error, and
-- Base.Json the interface to nlohmann::json, a record that every definition that reads or builds a
-- document takes as a parameter; JsonLaws are its documented laws on values that the code builds,
-- and PrintLaws those of printing the values that it parsed and what is built of them.
--
-- Model: include/ezcap/*.hpp, src/common/error.cpp, src/common/event_types.cpp and
-- src/ipc/ipc_protocol.cpp. A time point is a count of nanoseconds, a confidence a count of
-- hundredths.
--
-- Policy: Policy.Types is include/ezcap/policy.hpp, Policy.Redactor src/policy/redactor.cpp, and
-- Policy.Engine src/policy/policy_engine.cpp. A call of the redactor returns its text with what
-- last_redactions() gives afterwards. The JSON document of update_from_json is arbitrary.
--
-- Attribution: Attribution.Confidence and Attribution.Correlator are src/attribution/. The clock
-- of correlate is an argument.
--
-- Capture: Capture.Packet and Capture.Dns are src/capture/packet_parser.cpp. Reading goes through
-- Capture.Scan, where a read past the end of a span or an unsigned subtraction that wraps is a
-- value of its own, so that memory safety can be stated. format_ipv4 and format_ipv6 call
-- inet_ntop and are parameters. The loop over DNS labels is bounded by 128 rounds in the source
-- and in the model. Capture.Filter is src/capture/pcap/pcap_filter.cpp, and Capture.Normalizer
-- src/capture/event_normalizer.cpp.
--
-- Daemon: Daemon, Daemon.Start and Daemon.Requests are src/daemon/daemon.cpp with the fields of
-- src/daemon/config.hpp, and Daemon.Settings and Daemon.PrivacySettings are src/daemon/config.cpp.
-- What the backends, the server, the store and the clock answer are arguments; Daemon.Capture has
-- the steps that a daemon takes, in any order, and Daemon.Requests.Patch reads a policy document
-- as one patch. An exception of the JSON library is the value `none`.
--
-- Drivers: Drivers.Manifest is src/drivers/lua/manifests/manifest.cpp, Drivers.Sandbox the
-- allocator and the instruction hook of src/drivers/lua/sandbox.cpp, and Drivers.Instance one
-- driver of src/drivers/driver_engine.cpp with the filters of src/drivers/lua/bindings/lezcap.cpp.
-- What the Lua library and the script answer are arguments. Sizes and fault counters wrap as in
-- the source.
--
-- NativeHost: NativeHost.Framing is native_host/src/message_reader.cpp and message_writer.cpp,
-- where the answers of the system to read and write are a list; NativeHost.Client is
-- daemon_client.cpp, and NativeHost.Host the handler of main.cpp. The loops over a text run on a
-- fuel of its length, or one more, and each round passes a byte or more.
--
-- Ipc: Ipc.Framing and Ipc.Codec are src/ipc/ipc_codec.cpp, Ipc.Server is the part of
-- src/ipc/unix_socket_server.cpp between recv and send. split_frames runs on a fuel of the
-- buffer's length and one; each round passes a newline, so that is enough. The socket and the
-- request handler are parameters; what the handler answers may depend on how often it has been
-- called. A client carries whether its own thread holds out_mutex: locking it again is the value
-- `deadlock`. client_loop runs over the list of what recv returns; EINTR, and a stop of the server
-- in between, are left out.
--
-- Tests: concrete inputs for every part, with a JSON library of documents in memory.
--
-- Not modelled: the capture backends, the eBPF programs, storage, the discovery of drivers and the
-- glue to the Lua library, the specification generator, privilege dropping and logging, most of
-- which are system calls or calls of other libraries; accepting and broadcasting in the socket
-- server; the threads and the loops of the two programs; and mutexes other than out_mutex, each of
-- which guards a whole operation of the model.
pub mod Base
pub mod Model
pub mod Policy
pub mod Attribution
pub mod Capture
pub mod Daemon
pub mod Drivers
pub mod Ipc
pub mod NativeHost
pub mod Tests
