-- ===== src/Lib.antt =====
-- Berth: a self-hosted platform that deploys apps. A hub (berth-hub) keeps accounts, apps and
-- deployments in a database and serves a dashboard, an API and the apps' own hosts; agents
-- (berth-agent) on other machines run containers for it; berth-models holds the types and the
-- validation that both share, berth-db the rows of the database.
--
-- What is modelled, and where:
--   Error, Error/Response     berth-hub/src/error.rs: AppError, its messages, its HTTP response
--   Models, Models/Validate   berth-models/src/lib.rs: types, permissions, validators
--   Accounts                  berth-hub/src/accounts.rs, authz.rs: roles, validators, app access
--   ApiTokens                 berth-hub/src/api_tokens.rs: expiry, the printed form of a token
--   Routing                   berth-hub/src/routes/host_routing.rs: classify_host
--   Serve                     the dispatch by host, and serve of berth-hub/src/routes/apps.rs
--   Db, Db/Query              berth-db/src/models.rs: rows, and the filters that queries use
--   Http, Net                 the request's headers, methods and addresses that the code reads
--   Auth                      berth-hub/src/auth.rs: sessions, lockout, cookie, bearer, same origin
--   Auth/Login, Auth/Bearer   berth-hub/src/routes/auth_routes.rs, and the extractors of auth.rs
--   Users                     berth-hub/src/routes/users.rs: every handler
--   Secrets                   berth-hub/src/secrets.rs: encrypt and decrypt
--   Storage/Tokens, Hosts, Rows, EnvVars, Apps, Deployments
--                             berth-hub/src/storage.rs: the operations on each table
--   Storage/Listing           list_apps and active_deployment_id of the same file
--   AgentLink                 berth-hub/src/agent_link.rs: the calls of one agent's session
--   Grpc                      berth-hub/src/grpc.rs and the registry of agent_link.rs: sessions
--   Logs                      berth-hub/src/deployment_logs.rs: pumps, rotation, readers
--   Relay, Relay/Hub          berth-hub/src/routes/apps.rs: a request relayed to an app's container
--   Relay/Agent               berth-agent/src/relay.rs: the agent's side of it
--   Agent/Containers          berth-agent/src/containers.rs: containers over the daemon's interface
--   Agent/Handlers            berth-agent/src/handlers.rs: starting and stopping for the hub
--   Containers                berth-hub/src/containers.rs: what the hub asks of an agent
--   Api                       berth-hub/src/routes/api.rs: access, views, activation, deletion,
--                             uploads, logs
--   Reconcile                 berth-hub/src/reconcile.rs: what a connecting agent makes the hub do
--   GitFetch                  berth-hub/src/git_fetch.rs: the checks before and after a clone
--   Uploads                   berth-hub/src/agent_fs.rs, and the agent's handlers.rs and fs_ops.rs:
--                             a zip that the hub sends in chunks and the agent puts in place
--   Archives                  zip_extract.rs of berth-hub/src and of berth-agent/src
--   Prelude                   shared lists, options, results, text, integers and finite maps
--   Fixtures, Tests           the concrete inputs on which the theorems are tried
-- The other modules under these prove what the list below states. A function of the model has the
-- name of the function it stands for; where the source writes one long function, the model names
-- its parts after what they do. A login reads `Auth` through `Auth/Login`; the account handlers of
-- `Users` change the database and the sessions of `Auth` together; `Auth/Bearer` finds users by
-- the tokens of `Storage/Tokens`. `Api/Lifecycle` sees the containers of all hosts through the record
-- `Agents` of `Containers`; `Containers/Machines` fills it with the handlers of `Agent` over any
-- `Docker`, and `Agent/Podman` is a `Docker` on which nothing fails. `Relay/RoundTrip` composes the
-- two sides of the relay over the queues between them.
--
-- How it is modelled. A table is the list of its rows in the order of insertion; a query is a
-- search of that list; an update replaces the rows with one id. A concurrent hash map is the
-- function from keys to what is stored. A handler takes the state and gives the next state with
-- its result; where every error comes before the first write, it gives only the error. Handlers
-- are taken one after another: what two requests do to one row at the same time is not modelled.
-- Only an activation, which waits for an agent between its reads, gets the databases that it finds
-- later (`Meanwhile` of `Api/Lifecycle`), and may fail in its last update. A UUID is its 128-bit
-- number. A column that holds JSON is the value it decodes to, or the message of the error that
-- decoding it ends in. Clock readings, salts, nonces, random tokens and the ids of new rows are
-- arguments. Differences of timestamps are taken in the integers; the sum that bounds an expiry
-- keeps the wrap-around of `i64`, and the failure count that of `u32`.
--
-- What other code does is a parameter with the laws the code relies on: Argon2 (PasswordHashing),
-- `str::to_lowercase` (Lowercase), the spelling of UUIDs and the range of timestamps (Platform),
-- the cipher, base64 and UTF-8 (Crypto), the container daemon (Docker), the container that answers
-- a relayed request, URL parsing and name resolution (Network), the reader of archives. Of the
-- failures of the database only the refusal of a repeated unique column, the last update of an
-- activation and the query for an agent's token are modelled, of those of the file system those of
-- uploads, archives and logs and a missing directory. What other requests do to containers while
-- an activation waits is left out. All loops are structural recursion on lists or text, so that no
-- fuel is needed. The tasks of a link's calls are sequences of steps, in the order in which they
-- take the locks; the end of a session (fail_all_pending), which takes three locks in turn, is one
-- step.
--
-- A read that fails, a full disk or a session that is lost are answers that the model is given. An
-- upload to an agent is one handler's: the chunks that start another one after a write has failed
-- are left out. What is written to a file is taken to reach the disk.
--
-- Not modelled: the gRPC transport between hub and agents; of storage, create_deployment,
-- finish_git_deployment and the start-up sweeps; of the routes, the git deployment of api.rs, the
-- handlers that only call storage, hosts.rs and mcp.rs; the clone of a repository, which a library
-- does; the other operations on the agent's files (fs_ops.rs, layout.rs, agent_fs.rs), statistics,
-- session loop and TLS; configuration; the dashboard (berth-ui).
pub mod Accounts
pub mod Agent
pub mod AgentLink
pub mod Api
pub mod ApiTokens
pub mod Archives
pub mod Auth
pub mod Containers
pub mod Db
pub mod Error
pub mod Fixtures
pub mod GitFetch
pub mod Grpc
pub mod Http
pub mod Logs
pub mod Models
pub mod Net
pub mod Prelude
pub mod Reconcile
pub mod Relay
pub mod Routing
pub mod Secrets
pub mod Serve
pub mod Storage
pub mod Tests
pub mod Uploads
pub mod Users
