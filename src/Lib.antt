-- ===== src/Lib.antt =====
-- The verification library of Callifornia2, a service for calls in a browser. It models the
-- services that hold the state of a call. A browser asks the connector (services/connector) for a
-- signaling node and for a token that admits it to a room; it then opens a WebSocket to that node of
-- the signaling service (services/signaling), which keeps the sessions and the peers of its rooms
-- and makes an SFU add and remove peers. The nodes share rooms and loads through Redis, with the
-- keys of common/control_store, and the supervisor (services/supervisor) watches the heartbeats
-- there and clears up after a node that is gone.
--
-- The files of services/signaling/src, and the modules that model them:
--   message.rs           Message: the messages, `validate`, and the claims of a token (auth.rs)
--   auth.rs              Signaling.Auth: `validate_connector_token`
--   session_registry.rs  Signaling.Sessions: `SessionStore`, with a function for each method; proofs
--                        in Sessions.Rooms and Sessions.Moves
--   peer_registry.rs     Signaling.Peers: the map of rooms to peers; proofs in Peers.Rooms and
--                        Peers.Broadcast
--   redis.rs             Signaling.Redis: the operations, each with its keys; Redis.Assign: the
--                        script that binds a room to an SFU
--   sfu.rs               Signaling.Sfu: the requests and the state of each peer; Sfu.Ufrag: the
--                        search for `a=ice-ufrag:`; Signaling.Events: the events of an SFU
--   admin.rs             Signaling.Admin: the requests of the supervisor
--   config.rs            Signaling.Config: reading the environment
--   state.rs             Signaling.Node: the state of a node; Signaling.State: `detach_peer`,
--                        `run_purge` and `close_rooms_due_to_sfu_addr`
--   websocket.rs         Signaling.Websocket: Context (errors, `check_session`), Rooms (join, create
--                        and leave), Rooms.Stale (`detach_stale_peers`), Handlers (a function for
--                        each message) and Connection (the loop, and the cleaning up at its end)
-- Signaling.Invariant says which predicates on a node every handler keeps; Invariant.Node has the
-- steps of a running node, and the nodes that it reaches. Signaling.Purge, Detach and Drain are about
-- a purge, a detached peer and a room with closed channels, Close about a room that is closed,
-- Attach, Cleanup and Logout about the begin and the end of a connection and of a session,
-- Redis.Least about the choice of the script, Admission about what a token allows, and Known and Entry
-- about a session that enters a room.
--
-- The files of common/control_store/src:
--   keys.rs, models.rs   ControlStore: the keys, the heartbeats and the bindings
--   storage.rs           ControlStore.Heartbeat (heartbeats and their parsing), Scan (`scan_keys` as
--                        a loop, the identifiers in keys), Cleanup (removal of a node), Rooms
--                        (bindings of rooms), Instances (what is alive) and Select (the choice of an
--                        SFU, in Rust and as a script); proofs in Scan.Strip, Ids and Pages, in
--                        Select.Least and Script, and in Distinct
-- The files of services/connector/src:
--   config.rs            Connector.Config, with the variables of Environment and the splitting of
--                        texts in Texts
--   redis.rs             Connector.Redis: the sessions, the bindings and the choice of a node
--   token.rs             Connector.Token: the claims, and signing and reading them
--   message.rs           Connector.Message: the requests, the replies and `validate`
--   main.rs              Connector.Errors and Connector.Handlers: a function for each route
-- with proofs about the choice of a node in Nodes, tokens in Tokens, a session's time to live in
-- Lease, heartbeats and bindings in Freshness and Routes, the time meanwhile in Clock; Nicknames
-- compares the connector's rule with the browser's.
-- The files of services/supervisor/src:
--   config.rs            Supervisor.Config
--   probes.rs            Supervisor.Probes, and Supervisor.Janitor for the removal of what is left;
--                        proofs in Janitor.Spares and Janitor.Safety
--   main.rs              Supervisor.Monitor: the outage of Redis and the recovery; proof in
--                        Monitor.Outage
-- The files of client/src, the browser's part:
--   nickname.rs          Client.Nickname
--   signaling.rs         Client.Messages, and Client.Signaling for the callbacks of the socket
--   theme.rs, app.rs     Client.Settings, Client.Participants and Client.App: the page's state and
--                        callbacks; proofs in App.Rooms, App.Steps and App.Entry
--   components/room.rs   Client.Room (with room/layout.rs and room/tiles.rs): the pages of a room;
--                        proofs in Room.Paging and Room.Names
--   webrtc_room.rs       Client.Relay: the names of relayed tracks, with a proof in Relay.Names, and
--                        stale generations
--
-- How the code is written here: a handler is an `Action S E A` of Exec, a function from a state to a
-- result or an error and the state that is left, so that what was written before an error stays. A
-- connection's state is its context with the node; the node has the outside world in its field
-- `ext`. `Keeps` says that an action keeps a predicate, `Ensures` what holds after one that returned
-- without an error, `Leads` that an action without errors leads from one predicate to another.
-- `HashMap` and `HashSet` are association lists (Map); where the code sorts or walks a `HashMap` the
-- list has the order of Redis's reply. Texts are read as lists of code points (Text, Texts), and
-- numbers in them are printed and parsed by Numerals, with the bounds of u32, u64 and i64.
--
-- What the code calls and does not implement is the record Services, which every definition takes
-- as an instance: the Redis server and the connection to it, the SFU, the admin service of a node,
-- the channels, the socket, the clock, UUIDs, tokens and JSON. Most theorems assume nothing of it.
-- Those about what a later command of Redis reads take Commands.Laws.IsRedis as a hypothesis, the
-- documented behaviour of the commands they use, and those about how long something holds take
-- Connector.Clock.IsClock, that the clock does not go back; Tests.Laws shows that a small world has
-- both.
-- Commands sends a command and turns its reply into a result; Commands.Rules says which commands
-- leave a predicate alone.
--
-- Loads, scores and the readings of the clock are natural numbers without a bound; Redis keeps the
-- scores in floating point, and the program the times in 64 bits. What may be negative is an integer
-- (Numerals): the times that are read from Redis and from JSON, the cutoffs and the times to live. A
-- duration of the configuration is cast as the code casts it (`as_i64`), so that one of 2^63 seconds or
-- more becomes negative; the theorems about durations say which they are about.
--
-- The JSON of an instance is read in two ways, which are two parameters: by serde in the program, and
-- by cjson in the script of Redis, where a number that is missing is 0. The script's table is the record
-- of the same fields.
--
-- Each registry is behind a lock that an operation takes once, so an operation is one step. A step
-- of a node is a whole handler: handlers of two connections that interleave at their awaits are not
-- modelled. Between steps the outside world may become any other (`Step.outside`).
--
-- Two loops are not recursions on a list. The one of `detach_stale_peers` may add to the list that
-- it empties. It runs on fuel, `length stale + 2 * n * n + 1` for a room of n peers: each round that
-- removes a peer adds n names at most, and any other is followed by one that does or adds none. The
-- one of a scan asks Redis for pages until the cursor is 0; its fuel is `scan_rounds`, the rounds
-- that fit in the timeout around a scan, and running out of it is the error of the timeout.
--
-- What the browser and the crates do for the client is the record Browser of Client.Messages. The
-- callback of the socket's events reads the room through a handle of Yew (`seen` in `handle_event`);
-- `deliver` takes it to read the room that was set last.
--
-- Not modelled: in the services, the tickers and the sleeping between rounds, waiting for Redis at
-- the start, opening gRPC channels, serving HTTP and CORS, logging, and the start and stop of the
-- processes. In the browser's part, the rest of the WebRTC session and its lifecycle, the requests of
-- connector_api.rs, the sizes of the tiles, and all that is drawn. The SFU (sfu) is written in
-- another language.
pub mod Prelude
pub mod Map
pub mod Signaling
pub mod Client
pub mod Connector
pub mod Exec
pub mod Commands
pub mod ControlStore
pub mod Environment
pub mod Supervisor
pub mod Text
pub mod Texts
pub mod Message
pub mod Services
pub mod Numerals
mod Tests
