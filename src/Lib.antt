-- ===== src/Lib.antt =====
-- Verification of proxygo, a proxy for Minecraft servers that forwards TCP connections and UDP
-- datagrams to backends, under the control of an administrator.
--
-- The parts and how they interact. The manager (internal/proxy/manager.go) owns the running
-- backends. A backend (internal/proxy/proxy.go) accepts connections, checks the ban list and the
-- limits of the client's address (internal/proxy/conn.go, internal/metrics), dials its server, runs
-- the preamble of its forwarding mode with the codecs of pkg/mcproto and pkg/ppv2, and then pumps
-- bytes both ways. Its UDP forwarder (internal/proxy/udp.go) keeps a session and a socket for each
-- client. The rate limiter of internal/security guards the administrator's commands, which arrive
-- over the Telegram bot (internal/telegram): it calls the manager and the bans, and notes what was
-- done in the audit trail. The store (internal/storage) keeps backends, bans, statistics and the
-- trail in SQLite tables; the subcommands of cmd/proxygo read them.
--
-- The files, each with its child modules and a module of tests:
--   Base: shared types, Go maps as association lists, readers over a stream of bytes, big-endian
--     buffers, bit operations, text.
--   Mcproto: pkg/mcproto/mcproto.go. ReadFrame is read_frame, ParseHandshake parse_handshake,
--     MarshalHandshake marshal_handshake, ParseLoginName parse_login_name, OfflineUUID offline_uuid.
--   Ppv2: pkg/ppv2/ppv2.go. Valid is valid, Marshal marshal, ReadHeader read_header, Size size.
--   Security.Limiter: Limiter of internal/security/security.go. NewLimiter, Allow and Prune are
--     new_limiter, allow and prune.
--   Security.Bans: Bans of the same file, with BanIP, UnbanIP and IsBanned of
--     internal/storage/storage.go. NewBans is new_bans of its Chain, Describe described of its Summary.
--   Metrics: internal/metrics/metrics.go. inc, sum and prune of the tracker of addresses, and the
--     counters and rates of Metrics.
--   Proxy.Conn: internal/proxy/conn.go. ipConnTracker is Tracker with inc, dec and count; the
--     counting Write is write and the pump pipe.
--   Proxy.Forward: forwardPreamble, forwardBungee and writePPv2 of internal/proxy/proxy.go.
--   Proxy.Backend: handleConn, closeBoth, notifyDDoS, statsFlusher and itoa of the same file.
--     Proxy.Backend.Lifecycle is acceptLoop, start, shutdown and restart as accept_loop, start, shutdown
--     and restart; its Lives is the flusher over several starts of one backend.
--   Proxy.Udp: internal/proxy/udp.go. handlePacket, getOrCreate, dropSession, readLoop and Close,
--     with run in Proxy.Udp.Listening.
--   Proxy.Manager: internal/proxy/manager.go, with Security.BackendAllowed of
--     internal/config/config.go and Backend and ValidForwardMode of internal/model/model.go. Its
--     operations are in Proxy.Manager.Operations: Add is add, Remove remove, AddUDP add_udp.
--     Proxy.Manager.Listing is List, Proxy.Manager.Shutdown is Shutdown; Proxy.Manager.Stored says
--     what the calls leave alone.
--   Storage: Store of internal/storage/storage.go. The records and the statements on the table of
--     backends are in Storage, with their order in Storage.Rows; RecordStat and SumStats are
--     record_stat and sum_stats of Storage.Stats, RecordAudit and AuditLog are in Storage.Audit, New
--     and migrate are open_store and migrate of Storage.Migrations, with the scripts of
--     internal/storage/migrations.
--   Persistence: the manager over that store, that is Storage as the interface of the manager.
--   Telegram: internal/telegram. tokenize and parseCommand of parse.go are in Telegram.Words;
--     escapeHtml, humanBytes, shortUptime and tailFile of helpers.go in Html, Sizes and Tail;
--     formatGlobalStats and formatBackendStats of bot.go in Figures and Backends, Notify and notifyLoop
--     in Alerts. Telegram.Bot has the
--     state, Bot.Commands a function cmd_* for each command, Bot.Updates handleUpdate, dispatch and
--     handleCallback as handle_update, dispatch and run_callback, Bot.Polling the loop of Start as poll.
--   Config: internal/config/config.go. Default, Load, Validate, TeleRateLimit and AdminAllowed.
--   Logging: internal/logging/logger.go. parseLevel, accessFile and Close, and New in Logging.Opening.
--   Command: the admin subcommands of cmd/proxygo/main.go. Command.Serving is serve, with what stops
--     it in Stuck and how it ends in Ending.
--
-- How the code is modelled. A handler is a function of the state and of the answers that it gets
-- from outside: the clock, the ban list, the dialer, the sockets. Strings and packets are lists of
-- bytes. A reading side is a stream of the bytes to come and the error behind them; a writing side
-- says for each write to come whether it takes everything or fails after some bytes. Errors are
-- values of each package's own type, and a run-time panic is a result of its own. An int32 is its
-- bit pattern below 2^32; counters are natural numbers and do not overflow. A varint is read in at
-- most five rounds, as in the code; appendVarint recurs on the accessibility of the number, and
-- itoa on as many rounds as the number, which is more than it has digits. Concurrent
-- work is a sequence of steps: accepted sockets, ended connections and forced closes of a backend;
-- datagrams and turns of read loops of the UDP forwarder. The handler of one connection is one
-- step, since a backend's accept loop calls it once at a time. All backends of the process share one
-- tracker: the state of a backend has the connections of the others beside its own, and the steps of
-- the others, which raise and lower counts of the tracker, come in between; the limit of connections
-- is stated for each backend. Shutdown of the manager passes the one tracker from backend to backend.
--
-- The bot's handlers are functions of the update, of its World (clock, listeners, files) and of the
-- bot; a call of the manager that waits for ever for its mutex leaves the bot stuck, as does a panic. An SQL statement
-- is a function of the tables, and fails where a constraint does not hold or where the driver does
-- not execute it, as a predicate on the number of statements before it says. humanBytes loops on as
-- many rounds as the number of bytes, which is more than it can be divided by 1024.
--
-- Parameters: crypto/md5, the text of an IP address, the functions of strings, net, strconv and fmt
-- that the manager and the bot call (Library, Strings), the YAML parser and ParseDuration, the driver
-- of SQLite, errgroup, and for the manager alone the storage behind its interface.
--
-- serve is a state and the steps of its goroutines: events of the log, calls of the manager by the
-- bot, the end of the bot, a signal, and the shutdown that follows it. Whether a backend is down before
-- the deadline of Shutdown is an answer from outside; a shutdown begins at the end of its drain, and
-- closes what is left and waits for it in one step: a handleConn that registers its connection between
-- the forced close and the end of the wait is not modelled.
--
-- Not modelled: deadlines other than as failures of a stream, log lines, the wording and layout of
-- replies and tables, the calls of the Telegram API, and the flags that main reads.
pub mod Base
pub mod Command
pub mod Config
pub mod Logging
pub mod Mcproto
pub mod Metrics
pub mod Persistence
pub mod Ppv2
pub mod Proxy
pub mod Security
pub mod Storage
pub mod Telegram
