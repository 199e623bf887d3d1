-- ===== src/Lib.antt =====
-- Aika's file transfer server, and what is proved of it.
--
-- Aika is a fork of LocalSend: devices of a local network send each other files over HTTP. The
-- server of packages/core takes uploads of other devices (v2.rs), shares files with web browsers
-- (web.rs, web_zip.rs), and tells the application of both by events; a second program, server/,
-- introduces devices to each other for WebRTC. The application answers the events: it decides on
-- requests, and says where a file goes or comes from.
--
-- The parts, and what models them:
--
-- Model, Http: the data and errors that the endpoints exchange, of packages/core/src/model,
--   packages/core/src/http/dto_v2.rs and packages/core/src/http/server/common/error.rs.
-- Session: the single slot of an upload session, packages/core/src/http/server/common/session.rs.
-- V2: the upload endpoints of packages/core/src/http/server/v2.rs. V2/Endpoint is
--   `prepare_upload` up to the claim of the slot, V2/Prepare is `create_upload_session` with
--   `PendingSessionGuard`, V2/Transfer is `upload` with `UploadGuard` and `finalize_file`, V2/Cancel
--   is `cancel` and `cancel_v2_session`. V2/Admission says what `upload` accepts, V2/Claimed what a
--   claim of the slot comes to, and V2/Replaceable of the state itself when the slot may be taken.
-- V2/World: many requests at once. A handler is cut where it awaits the application, the body of
--   a request, or nothing more; each piece runs while it holds the lock of the slot, so that an
--   interleaving of requests is a sequence of pieces. The tasks of a world are the requests that
--   wait and the cleanups that dropped guards have spawned. A request that takes the slot of an
--   abandoned session comes as a whole (`prepare`), or in two pieces (`claims`, `announces`), apart
--   where it awaits that the end of that session is sent and has no guard yet. A request that is
--   dropped there, or when its guard is disarmed and the lock still awaited (`interrupt`), stays
--   among the tasks as `leaked` or `stuck`, so that it is counted. Invariant says how
--   the slot and the tasks fit together, Requests, Answers and Reachable go through the actions,
--   Promises and Tokens hold what clients and the application rely on.
-- Save: how the body of an upload reaches its file, packages/core/src/http/server/common/save.rs.
-- Pin: packages/core/src/http/server/common/pin.rs. The table of failed attempts is the `lru`
--   crate's, and comes as an interface of its documented operations and laws; Pin/Table meets it.
-- Web: the download sessions of packages/core/src/http/server/web.rs, cut in the same way. Upload is
--   its `prepare_upload`, which leads into V2/Prepare, with Names and Announced on what is valid,
--   Waiting on what reaches the application, and InWorld on its place in V2/World. DownloadZip is
--   `download_zip` as far as the task of Zip/Stream, with Ids, Chosen and Planned.
-- Zip: the archives of packages/core/src/http/server/web_zip.rs and `stream_zip` of web.rs, with
--   Format, the layout of an archive read off its bytes, and Names, the names of the entries.
-- Signaling: the rooms of server/src/controller/ws_controller.rs, with Rooms, Limits, Granted and
--   Rate on what they keep to. Client is the other end, the
--   managed connection of packages/core/src/webrtc/signaling.rs, with Answered.
-- Chunks: how packages/core/src/webrtc/webrtc.rs sends over a data channel. The fuel of its inner
--   loop is the length of the buffer, of which each round takes a positive number of bytes.
-- Webrtc: the protocol of the transfers in packages/core/src/webrtc/webrtc.rs, one module for each
--   part of `send_offer` and `accept_offer`. Handshake is the exchange of nonces and tokens on both
--   sides, with Trust; Pin is `verify_pin` and `handle_pin`, FileList the way to the file list with the
--   sending peer's challenge, with Dialogue on both; Send and Receive are
--   the loops over the files, with Bounds, Delivery and Outcome. A side is a function of the
--   messages that it gets, and hands out those that it sends. What serde_json makes of a message is
--   an interface; Webrtc/Tests/Formats meets it.
-- Crypto: the tokens of packages/core/src/crypto/token.rs. Hashes, signatures and Base64 are an
--   interface of what their crates document; Crypto/Sample meets it.
-- V3: the exchange of nonces, packages/core/src/http/server/v3.rs and client/v3.rs, with Agreement.
--   The maps of nonces are the `lru` crate's, and come as an interface; V3/Tests meets it.
-- Chat: the hub of the chat connections, packages/core/src/chat/mod.rs.
-- Common: numbers, lists, equality and maps for all of them.
--
-- How the state corresponds. Instants are milliseconds. A `u64` sum keeps its wrap-around. A hash
-- map is an association list, read through `get` and `values`; the maps that come from outside are
-- taken to have no key twice where this matters. A `String` is a string, the bytes of a name or of
-- a content are lists of numbers. Sending on a channel to the application adds an event, or fails
-- once the application has stopped to listen; a channel's capacity only delays. UUIDs, tokens, the
-- clock, the answers of the application and of the file system are arguments.
--
-- Every other loop of the program is a recursion on the list that it goes through, and needs no
-- fuel; the rounds of the CRC table count down from 8, as the source's count up to it.
--
-- Not modelled: sockets, TLS, HTTP and JSON, which hyper, rustls and serde do; logging; progress
-- events, which are best effort; response headers. The router, the v2 and v3 register endpoints and
-- the HTTP clients but for the exchange of nonces are not modelled, nor pairing and the exchange of
-- SDP of a WebRTC transfer. The bindings for Dart, the Flutter application, the browser extension and
-- the store metadata are not part of this development.
pub mod Common
pub mod Model
pub mod Http
pub mod Session
pub mod Pin
pub mod Save
pub mod Signaling
pub mod Zip
pub mod Web
pub mod Chunks
pub mod Chat
pub mod V2
pub mod Webrtc
pub mod Crypto
pub mod V3
