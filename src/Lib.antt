-- ===== src/Lib.antt =====
-- A model of the realtime WebSocket server of go-server, and what holds of it.
--
-- The program. go-server is one process of a horizontally scaled messaging server. For each upgraded
-- connection, realtimeSessionHandler.Handle makes a session, registers it at the hub and runs its two
-- loops: the read loop decodes and carries out commands (join, leave, broadcast, private message), the
-- write loop drains a bounded queue into the socket. The hub keeps one session per user, the members
-- of the rooms under a second index, and hands what it delivers to a broker, from which the other
-- processes take it. A rate limiter stands in front of every command, and counters record what
-- happens. All sessions of a process share the hub and the counters. The load test runs many clients
-- against a server.
--
-- The files:
--   Common, Text and below, Dict  shared names, byte strings with the part of `strings` and `bytes`
--                                 that the program uses, maps with their laws
--   Observability and below       go-server/internal/observability/metrics.go: the counters, the loop
--                                 that raises the deepest queue, and their snapshot
--   Broker/Event                  go-server/internal/broker/event.go: the envelope between processes
--   Broker/Memory and below       go-server/internal/broker/memory.go: the in-memory bus, its subjects
--                                 and who is called
--   Broker/Nats and below         go-server/internal/broker/nats.go: the broker over NATS JetStream, the
--                                 names of its consumers and what Close ends
--   Http, Http/Admission          go-server/internal/httpapi/websocket.go and health.go: which request
--                                 becomes a session, and how many at once
--   Integer, Integer/Decimal      int64 where it may be negative, strconv.ParseInt, and %d of fmt
--   Config and below              go-server/internal/config/config.go: LoadFrom, Validate and splitCSV,
--                                 and what they make of the sessions
--   Realtime/Message              go-server/internal/realtime/message.go: envelopes, DecodeInbound,
--                                 Validate, newOutboundMessage
--   Realtime/Message/Valid        which commands are accepted
--   Realtime/RateLimit, .../Bound go-server/internal/realtime/rate_limit.go, and whom it lets through
--   Realtime/Rooms                go-server/internal/realtime/hub.go and authorizer.go: the hub's state
--                                 and the methods on it alone (Unregister, Join, Leave,
--                                 AuthorizeBroadcast, SetBroker, Lookup, Count, Snapshot)
--   Realtime/Rooms/*              laws of the two room indexes, the hub's invariant, the contracts
--   Realtime/Node                 the state of one process: sessions by address, hub, counters
--   Realtime/Client               go-server/internal/realtime/client.go: newClient, Close, Send,
--                                 SendJSON and the senders of events
--   Realtime/Hub                  hub.go: Register, CloseAll, BroadcastDraining, Broadcast,
--                                 SendPrivate, HandleBrokerEvent
--   Realtime/Session              client.go: one frame in readLoop
--   Realtime/Loop                 client.go and go-server/internal/app/session_handler.go: Run, the
--                                 rounds of both loops, and schedules of steps of the whole process
--   Realtime/Reply and below      client.go: the reply to a frame
--   Realtime/Moves and below      every operation as a sequence of small moves, the invariant of the
--                                 process, and what no step takes back
--   Realtime/Delivery, Broadcast, Registry, Private, Closed
--                                 what a delivery, a broadcast, Register and CloseAll, SendPrivate, and
--                                 a closed session do
--   Realtime/Wired                go-server/internal/app/server.go: the hub with the in-memory bus as its
--                                 broker and its own handler subscribed
--   Realtime/RoomMessage          client.go, hub.go and server.go: a room message from the command to the
--                                 queues of the members
--   Realtime/Cluster              hub.go and server.go: a broadcast on its way to another process
--   App and below                 go-server/internal/app/server.go: NewServer and Serve, when sessions are
--                                 accepted and what the shutdown leaves
--   App/Start and below           go-server/cmd/server/main.go: what is started from an environment
--   Loadtest, Loadtest/Statistics go-server/cmd/loadtest/main.go: the goroutines of the load test's clients
--                                 as steps, the throttle and the statistics
--   Loadtest/Commands             what a client sends
--   Loadtest/Balance, Accounts, Connecting, Messaging, Run, Latency
--                                 the accounts of the statistics, step by step and in every schedule
--   App/Tests, Loadtest/Tests, Realtime/Tests and below, Broker/Tests, Broker/Nats/Tests,
--   Http/Tests, Config/Tests, Observability/Tests
--                                 a concrete node, bus and boundary, and the theorems at them
--
-- The correspondence. A `*Client` is an address, and the sessions are a function on addresses. A method
-- that holds a lock is one step; a round of a loop is one step, and so are the making and the
-- registering of a session, so a schedule interleaves the rounds of all sessions with closes from
-- anywhere. What the socket, the clock, the random source, the JSON
-- codec, the authorizer and the broker's Publish do is an argument: how each call of the socket ended is
-- part of the step, and Publish may change the process, since the in-memory broker calls the process's
-- own handler before it returns. A byte string is a list of numbers. Counters are kept modulo 2^64.
-- Limits and durations that the program reads only where they are positive are natural numbers, 0 for
-- every value that is not positive. Loops over maps are structural recursion on an association list in
-- some order. The digits of a printed number n are made on fuel n + 1, which is enough, since what is
-- printed is read back; no other fuel is used.
--
-- Not modelled: log lines, the NATS client library, net/http with its routing and listener, the timers
-- of the shutdown and the signals; the load test's flags and the printing of its report. The rounding of
-- the rate limiter's float64 is left out: its tokens are exact, and the program may let a call through
-- a little earlier than an exact bucket; what is stated of the bucket does not depend on the rounding.
-- The address that a client of the load test dials is left to net/url and net/http.
pub mod Common
pub mod Text
pub mod Dict
pub mod Observability
pub mod Broker
pub mod Integer
pub mod Http
pub mod Config
pub mod Realtime
pub mod App
pub mod Loadtest
