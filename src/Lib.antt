-- ===== src/Lib.antt =====
-- OB2_TurboQuant is a server of knowledge bases: people sign in to its dashboard, import
-- documents, and search or chat over them; scripts and an Open WebUI instance come in with keys.
-- This library models its accounts, the import of documents, what its chat gateway and its tools
-- ask of the knowledge bases on whose behalf, and the supervision of its helper processes.
--
-- Auth/ is server/auth/: TimingSafe the comparison of signatures (llamacpp-manager/auth.ts, which
-- server/auth/sessions.ts repeats), RateLimit the buckets of rate-limit.ts, Sessions the signed
-- cookies of sessions.ts, ResetTokens the token file of reset-tokens.ts, Passwords the checks of
-- passwords.ts, FileSigning the links of file_signing.ts. Users/ is server/users.ts: Users the
-- records, permissions and email addresses, Store the map by key and the file behind it, Access
-- the middlewares (bearerAuthMulti, mcpAuthMulti, requireDomainPerm), Admin the writes
-- (createUser, updateUser, revokeUser, rotateApiKey, setPassword, setEmail). Runtime/ is
-- server/runtime_config.ts, with the two routes of server/routes/admin.ts that write the settings
-- in Runtime/Overlay. Routes/ is server/routes/auth.ts: Handler is a monad over the state of the
-- server with an early answer, AuthRoutes and ProfileRoutes hold the handlers, and UserRoutes
-- those of server/routes/admin.ts that manage users. Import/Chunker is server/import/chunker.ts,
-- Import/Jobs server/import/jobs.ts, Import/Sniffer server/import/sniffer.ts, Import/Runner
-- server/import/runner.ts. Streams is server/llm/openai_sse.ts and server/llm/sse_parsers.ts, the
-- events in which the gateway and a provider send a chat's answer. Knowledge states what may be
-- asked of the sidecar and what each request takes of its caller, and Knowledge/Run is a monad
-- that records the requests made; Knowledge/McpTools is server/routes/mcp.ts and Knowledge/Gateway
-- server/routes/gateway.ts; Knowledge/DomainRoutes and Knowledge/Download are the routes of
-- server/routes/admin.ts that serve domains, their imports and graphs, and uploaded files.
-- Manager/ is llamacpp-manager/: Token the middleware of auth.ts, Supervisor the class of
-- process.ts, as a state machine over the events that its watchers see, Models the downloads of
-- models.ts. Sidecar is the client of server/sidecar.ts. Common/ holds tests on numbers, lists,
-- texts (lists of UTF-16 code units), and JsMap, a JavaScript Map in the order of insertion.
-- Tests/ applies each theorem to sample data. A state is a record, an operation a function from
-- the old state to the new one with its result; an exception is an error value, after which the
-- store is the old one.
--
-- Parameters stand for what the code takes from elsewhere: the HMAC of a cookie, Argon2, SHA-256,
-- toLowerCase, encodeURIComponent, JSON and YAML, the sidecar's and the chat provider's answers,
-- the clock, the random draws, the client's address, and what DNS and other servers answer. A
-- theorem that relies on one of them states so: that a fresh id has no dot, that Argon2 accepts
-- its own hash.
--
-- The only fuel is that of Import.Chunker.cut_from; hard_cut gives it one round more than the body
-- has characters, which is enough when the overlap is below the size of a chunk.
--
-- Simplifications: an operation runs alone, without other requests at its awaits; a time in a file
-- is the number of milliseconds that its ISO text stands for; the session cookie is taken out of
-- the Cookie header and decoded before the model sees it; users.json is a list of records, or
-- malformed. Not modelled: the raw editor of users.json, the texts of mails and answers, and all
-- parts of the program that are not named above (the fetching and conversion of files, the model
-- servers, the chat providers).
mod Common
pub mod Auth
pub mod Users
pub mod Runtime
pub mod Routes
pub mod Knowledge
pub mod Import
pub mod Manager
pub mod Sidecar
pub mod Streams
mod Tests
