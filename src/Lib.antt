-- ===== src/Lib.antt =====
-- The logic of the ircat IRC server: its shared state, its wire protocol, the registration of
-- connections, its channel, message and MODE handlers, and the federation of its nodes.
--
-- ircat holds all users and channels of a node in one `World` (internal/state). A connection reads
-- lines, which `Parse` (internal/protocol) turns into messages; a handler (internal/server) looks
-- up users and channels in the world, calls their methods, and sends messages that `Bytes` writes.
-- Channels and users are shared by all connections under mutexes, and a method here is one step.
-- Nodes talk over links (internal/federation): after a handshake each sends the other a burst of its
-- users and channels, and then what changes. The server (internal/server/federation.go) keeps the
-- links, delivers what a link hands it to the connections of this node, and forwards to links.
--
-- Parts and files:
--   Base            lists, options, signed numbers, Go maps as association lists, and the lemmas
--                   that the other parts share
--   State           internal/state
--     Casemap       casemap.go: `fold` is `Fold`, `equal` is `Equal`
--     Glob          `globMatch` of channel.go: `scan` is its loop, `backtrack` its third case;
--                   Glob/Spec says what a pattern means, as a relation with no search in it
--     Membership    the flags of a channel member and their prefixes
--     Channel       the channel record, its timestamp, its topic and its members; Channel/Modes
--                   the modes, key, limit, `ModeString` and `RestoreState`; Channel/Masks the four
--                   mask lists and the invites
--     World         world.go and user.go: the user and channel indexes. World/Users/Reach has the
--                   step relation of the calls that change a world; World/Race runs a join and
--                   a part as the steps between their locks, with channels behind references
--     Whowas        whowas.go: the ring buffer of users that have left
--   Protocol        internal/protocol
--     Message       message.go
--     Text, Tags    what parser and encoder share, and message tags with their escapes
--     Parse         parse.go: `parse` is `Parse`, one definition for each part of a line
--     Encode        encode.go: `to_bytes` is `Bytes`
--   Server          internal/server
--     Modes         `applyChannelModes` of handler_mode.go: `act` is the switch on one character,
--                   `run_modes` the loop with what it collects; Modes/Handler has `handleMode` and
--                   `handleChannelMode` with their guards
--     UserModes     `handleUserMode` of handler_mode.go
--     Persistence   persistence.go: the record of a channel and its restore
--     Channels      JOIN, PART and KICK of handler_channels.go, from one channel name on; an outcome
--                   stands for the messages that are sent. Channels/Commands has the lists of
--                   names, INVITE and TOPIC
--     Atoi          `strconv.Atoi`
--     Messages      PRIVMSG and NOTICE: handler_message.go
--     Registration  PASS, NICK and USER of handler.go and `tryCompleteRegistration` of welcome.go;
--                   Registration/Caps has CAP, of handler.go and caps.go
--     Quit          PING, QUIT and the close of a connection: handler.go and conn.go
--     Federation    federation.go of internal/server, with `broadcastToChannel` of server.go,
--                   `deliverWallopsLocal` and `recordWhowas`: `Site` is what of the server a link
--                   works on, `handle_squit` is `HandleSquit`
--   Federation      internal/federation/federation.go
--     Link          `Link`, its queue, and PASS and SERVER of the handshake
--     Burst         `sendBurst`
--     Nick          `handleRemoteNick`: `clash` and `resolve` are its switch on the timestamps
--     Modes         `applyRemoteChannelMode`
--     Remote        the handlers of the other messages of a peer
--     Dispatch      SVINFO, `dispatch`, and `run`, the loop of `Run` over the cases its select takes
--   Logging         the rings of log entries: logging/ring.go and bots/logring.go of internal
--   Tests           the theorems at concrete inputs, and runs of the code
--
-- How the state corresponds: a struct is a record with the source's fields in snake case, less its
-- mutex. A method that writes is a function from the record to the new record and the result. A
-- `*User` that stands in both indexes of the world is the user's ID, and `by_id` holds the record;
-- a channel is held by `by_channel` alone, and a write through a `*Channel` is `store_channel`.
-- Strings are lists of bytes. An error is a value of a result type with the source's errors.
-- A Go map is a list of its entries with distinct keys; the order of a `range` is the list's.
--
-- A connection holds the ID of its user, whose record the world has. A reply to the connection is a
-- value of `Reply` or `MessageReply`; what goes to other users and to links is `sent` of the site, in
-- order: a send to the connection of a user, or to its connection or bot, which reaches nobody where
-- there is neither. What a link itself sends is its queue. A callback of a link is an entry of
-- `events`.
--
-- Bounds: `int` is a signed number and the counter of user IDs wraps at 2^64; no other counter can
-- reach its bound. `itoa_loop` counts the 20 bytes of its buffer. The loop of `globMatch` runs on
-- fuel, `fuel p s`: between two moves of the saved star the pattern only moves forward, and the star
-- moves at most once for each byte of the text. Every other loop is structural.
-- A run of `Run` is a list of turns, since Go takes any case that is ready; a pair of calls in
-- World/Race has a list of turns likewise. The queue of a link holds 256 messages, and the guard against repeated SQUITs forgets after 5 s.
-- The length of a line is compared with 512 and the number of parameters with 15, as in the source.
--
-- Not modelled: sockets, TLS, timers and logging; the other handlers of internal/server, with SASL;
-- counters of traffic and the time of a user's last message; what INVITE tells the operators of the
-- channel; the services and their calls; the Lua bots; configuration, storage drivers, dashboard and
-- HTTP API. `strings.Fields`, `strings.TrimSpace` and `strings.ToLower` treat ASCII alone, the list of
-- accepted capabilities is not sorted, and the audit events are left out. The writer of a link takes
-- messages out of its queue between two handlers. Except in World/Race, a method is one step, and a
-- handler runs against one world: what other connections do between two calls of a handler is not
-- modelled.
pub mod Base
pub mod State
pub mod Protocol
pub mod Server
pub mod Federation
pub mod Logging
pub mod Tests
