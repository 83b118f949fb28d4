-- ===== src/Lib.antt =====
-- gov-pass: the packet engine that splits the TLS ClientHello of a TCP flow.
--
-- The program takes outbound packets from an adapter (NFQUEUE, divert or WinDivert), decodes them,
-- gives each flow to one worker, holds the first packets of the flow until its ClientHello is
-- whole, and then sends the hello in small segments in the place of the held packets. Whatever it
-- cannot split it sends on unchanged.
--
-- Packet (internal/packet): Packet is the types and the decoder of packet.go, with the reads that
--   panic in Go as a fault; Packet.Bytes are the big-endian reads and writes; Packet.Fields the setters;
--   Packet.Checksum checksum.go; Packet.Decode what the decoder accepts.
-- Tls (internal/tls/tls.go): detect_client_hello_record is DetectClientHelloRecord.
-- Reassembly (internal/reassembly/reassembly.go): push is Push, one function for each of its parts
--   (trim_prefix, place, merge, insert, compact). Sequence numbers and lengths are uint32, with the
--   wrap-around written out; sort.Search is given by its contract on a sorted slice. Span, Split, Chain,
--   Merged and Inserted are about the waiting segments and what a merge does to them; View is what a
--   buffer says of each offset, and the invariant; Refinement, Branches and Writes compare Push with it.
-- Flow (internal/flow): Flow is flow.go, its Go map as an association list; Flow.Tables are the laws
--   of the table; Flow.Sharder is sharder.go.
-- Engine (internal/engine): Engine.Config is config.go; Engine.Segments splits a payload and builds
--   the packets of worker.go; Engine.Worker has the worker's state, failOpen, dropHeld and
--   clearCollectingState; Engine.Inject is injectWindow with sendSegments and reinjectTrimmed;
--   Engine.Handle is handlePacket, one function for each stretch between its returns;
--   Engine.Collector is gc, the queues and one turn of the event loop; Engine.Shutdown is
--   shutdownFailOpen; Engine.Dispatch is the New, Reload and recvLoop of engine.go;
--   Engine.Exit is how Run merges the errors of its goroutines.
-- Nfqueue (internal/adapter/nfqueue_linux.go): the Linux adapter: verdicts and checksums. Its calls of
--   go-nfqueue and of the socket are logged, with any answers.
-- Divert (internal/adapter/divert_freebsd.go): the FreeBSD adapter, over a list of what its socket
--   gives; its calls of Sendto are logged, those that fail too, with any answers. Divert.Receiving,
--   Divert.Laws and Divert.Flushing are what becomes of a datagram.
-- WinDivert (internal/adapter/windivert_windows.go): the receiving loop of the Windows adapter, its Send
--   and Flush, with any answers of WinDivert.dll, and the calls of WinDivertSend logged, those that fail
--   too; Counts and Losses are about what the loop takes, passes on and loses; its queue parameters are in Settings.Reload.
-- Settings (cmd/splitter/config_windows.go, acl_windows.go and main_windows.go): the JSON settings,
--   their template and their validation; Files are the calls of the system, with any answers; Flags
--   and Effective are effectiveWindowsConfig, Acts, Runs and FirstRun what it does and gives; Reload is the loop
--   of runWindowsService with UpdateOptions of windivert_windows.go, Params, Live and Started what
--   it keeps. Go's TrimSpace, ToLower, ParseDuration and Duration.String are a parameter, the
--   record Library, and the environment and path/filepath another, the record Paths.
-- Driver (internal/driver/driver_windows.go): Ensure and its cleanup, over any state that the commands
--   of sc.exe change; Driver.Status states what is documented of these commands (a start or a stop
--   may stay pending, a delete may only mark the service), a hypothesis of Driver.Laws. Strings are functions of Go's `strings`.
-- Firewall (cmd/splitter/main_linux.go): the iptables rules, installed and removed, over any state that
--   iptables changes; Firewall.Chain is the chain asked for; what is documented of the
--   commands where they succeed is a hypothesis of Firewall.Laws, and any of them may fail.
--
-- State and calls. A worker is a record that every operation takes and returns; a Go method that
-- returns an error gives an Option of an Error beside the worker. A flow's state, which the code
-- changes through a pointer in the map, is passed along and written back to the table where the
-- method ends. The adapter is code of the operating system: it is a parameter, the record Adapter of
-- Engine.Worker, whose answers to a call (nil or an error) may depend on how many calls came before it,
-- and whose CalcChecksums is any function on bytes; the calls themselves are logged in the worker.
-- The order in which a Go map is ranged over is that of the list, which is any order.
-- A Go int is an unbounded integer where the code only compares it with a setting.
--
-- Fuel. The loops over a slice are structural. The loop of foldChecksum runs on fuel 3, which a uint32
-- never exhausts, since two turns bring it to 16 bits. chunk_loop runs on the length of the payload,
-- which is enough, since each turn takes at least one byte. The search for overlapping segments in
-- Push is structural. The loop of uninstallIptablesRules runs on fuel, enough of which is given when it
-- exceeds the number of jumps to the chain.
--
-- Not modelled: the goroutines and their timers (a worker's turns are given as a list of events),
-- the opening and closing of the adapters, the download of the WinDivert files, system calls, the
-- command line programs but for the settings and the reloads of the Windows service and the
-- iptables rules, the tray, the rest of the service and the installer, and the copies of other
-- projects under third_party.
mod Prelude
pub mod Packet
pub mod Tls
pub mod Reassembly
pub mod Flow
pub mod Engine
pub mod Nfqueue
pub mod Divert
pub mod Settings
pub mod Strings
pub mod Driver
pub mod Firewall
pub mod WinDivert
mod Tests
