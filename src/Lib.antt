-- ===== src/Lib.antt =====
-- Vexlo: a self-hosted server for quick tunnels (internal/), verified in parts.
--
-- A client opens a connection and registers (Tunnels, RateLimit); its messages are frames
-- (Protocol). The tunnel manager keeps the tunnels by subdomain and by session, in step with the
-- session table of the database (Storage). A public request is led to a tunnel by its host name
-- (Host), takes a place among the requests in progress (Slots), and is captured (Capture); the
-- dashboards hear of it through the hub (Hub) and may look at it (Access) and replay it (Replay).
-- The captures go through the queue of the database's one writer (Storage.Writer).
--
-- Files and code, each with the children in the folder of its name:
--   Common     Go's integers, strings, slices and maps, as far as the program uses them
--   Model      internal/model/model.go, and the registration messages of internal/protocol
--   Config     internal/server/config.go, the checks of New in internal/server/server.go and the
--              defaults of the flags in cmd/server/main.go
--   Protocol   internal/protocol/protocol.go: Encode is encode, Decode is decode
--   Storage    internal/storage/sessions.go: one function for each method of DB
--              Storage.Rows internal/storage/requests.go, Storage.Writer the queue of writes in db.go,
--              Storage.Schema its Open with migrate and applyPragmas
--   Headers    HeaderJSONToMap, flattenHeaders, marshalHeaders, replayHeaders, marshalFlatHeaders
--   RateLimit  internal/server/tunnel.go: allowPublicRequest, checkRegistrationRate and the windows
--   Tunnels    internal/server/tunnel.go and auth.go: Registry has the maps' operations, Register
--              the registration with its checks, Handoff the dashboards' one-time secrets
--   Host       FindByHost in internal/server/tunnel.go, stripPort, autocertHostPolicy and
--              tunnelTLSConfig in tls.go
--   Compare    subtleConstantTimeCompare in internal/server/auth.go
--   Hub        internal/dashboard/hub.go, and handleEventsWS of internal/server/websocket.go
--   Slots      acquireHostedSlots and its kin in internal/server/http.go
--   Capture    internal/server/util.go, and hostedCaptureLimit in internal/server/http.go
--   Exchange   the pending replies of Forward in internal/server/tunnel.go; Exchange.Loop is readLoop
--   Client     Run and registerTunnel in internal/client/client.go, and the answer of
--              handleBinaryConn in internal/server/binary.go; Client.Serve has serveTunnel and
--              handleForward, and Client.Run the loop of Run, dialServer and cmd/client/main.go
--   Access     authorize and the dashboard's handlers in internal/server/http.go
--   Public     handlePublicRequest and writeForwardResponse in internal/server/http.go
--   Replay     handleReplay and forwardReplay there; Replay.Traffic overlaps both kinds of request
--   Operator   internal/server/adminauth.go and the operator's handlers in http.go
--   Server     New, Start and a round of runRetention in internal/server/server.go, serveTLS in tls.go,
--              and handleHealthz in http.go
--   Sockets    the slots of dashboard connections and of clients, in websocket.go and binary.go
--   Logging    statusRecorder in internal/server/logging.go
--   Handshake  handleBinaryConn in internal/server/binary.go, and registerTunnel's reading of it
--   Routes     routes, handleRoot, handleDashboard and serveInstaller in internal/server/http.go, and
--              internal/dashboard/handler.go
--   World      the handlers, the retention loop and the writer over one database, in any
--              interleaving, and restarts
--   Lifecycle  the end of Start, and shutdown, in internal/server/server.go
--   Tests      runs on concrete data
--
-- A function of the code has its name in snake case. Bytes are numbers below 256, and a string is a
-- list of them. Go's int is ℤ where its sign matters; times are numbers of nanoseconds. A mutex
-- makes an operation one step; where the code lets go of it in between, the operation has two
-- functions. SHA-256, encoding/json, gzip and the random identifiers are parameters; that what
-- encoding/json writes of a message reads back as that message is a hypothesis on the message sent, as
-- text that is no UTF-8 does not. A statement of
-- the database may fail wherever its flag says so. Loops go over lists, and the
-- retries of a subdomain are counted down from five, as in the code; on fuel run `drain`, the
-- writer's last loop, for which one more than the jobs in the queue is enough, and the two loops that
-- read frames, for which one more than the bytes that come is, or than the frames.
--
-- Not modelled: sockets, deadlines, goroutines beyond the order of their steps, SQL text and the
-- driver, TLS itself, the embedded files, the log's lines and the parsers of flags and times.
pub mod Common
pub mod Protocol
pub mod RateLimit
pub mod Hub
pub mod Model
pub mod Config
pub mod Host
pub mod Compare
pub mod Tunnels
pub mod Storage
pub mod Slots
pub mod Capture
pub mod Access
pub mod Tests
pub mod Client
pub mod Exchange
pub mod Headers
pub mod Public
pub mod Replay
pub mod Operator
pub mod Server
pub mod Handshake
pub mod Logging
pub mod Sockets
pub mod World
pub mod Routes
pub mod Lifecycle
