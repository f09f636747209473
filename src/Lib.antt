-- ===== src/Lib.antt =====
-- Dart Edge: the native runtime under its Dart packages.
--
-- A program starts an HTTP server from a manifest of routes. The server compiles the manifest,
-- matches each request against the routes, validates it, and hands it to the Dart side through a
-- table of pending requests; the Dart side takes it and answers with calls that send messages to the
-- HTTP side. WebSockets and WebTransport have tables of sessions and streams. The other native
-- packages (SQL, S3, audio, voice activity) run their calls on the shared worker pool and collect the
-- results by job id.
--
-- Which file models which code:
--   JobPool     crates/dart_edge_core/src/job_pool.rs, with the completion port of dart_api.rs.
--               Counters and Pool are the shared state, Submit and Worker a caller and a thread as
--               their single atomic actions, System the pool with all of them. A run is a list of
--               actions in any order; an action that has to wait leaves all as it is.
--   Routing     Method is crates/dart_edge_http_server_core/src/lib.rs; the rest is
--               packages/dart_edge_http_server_runtime/rust/src/lib.rs (lib.rs in what follows):
--               Manifest and Route are its types, Compile is compile_route and what it calls, Match
--               is match_route, path_segments and native_handler_path; Fits describes what matches.
--   Query       parse_query and decode_query_component of lib.rs.
--   Http        lib.rs: Response is what it does with the http crate, Body the reading and validation of
--               bodies, BodyRead a description of what they are read as, Validate the middleware;
--               Checked, Reason, Refusal and Composed are about what it lets
--               through and what it refuses. Handle is the choice of the handler and the replies, with
--               Streaming about a streamed response from its request to its body. ByteStream is
--               crates/dart_edge_core/src/byte_stream.rs and its use as a body, also by a client that leaves
--               while a read runs; StreamLedger is about it.
--               PartHeader and Multipart are the parser of multipart forms; PartRead and MultipartBounds
--               are about it.
--   Runtime     lib.rs: Statics is the tables of requests and servers, Pending is
--               dispatch_request_to_dart, take_request, every call that answers a request, and
--               stop_server_by_id for requests, each as one step; Calls is a history of these. Steps
--               takes dispatch_request_to_dart, send_pending_response_message and stop_server_by_id
--               apart into what they do under one lock or none, for any order of such steps, and
--               Sequential compares the two. Ledger, Kept, Claimed and Endings are about what ends a request,
--               Leaving, Gone, Stopped and Stopping about a server, Handover about who is given one.
--   Realtime    lib.rs: WebSocket is the sessions of WebSockets and the calls on them, WebTransport those
--               of WebTransport; SocketQueue and SharedBudget are about the queues of what has come in.
--               Operation and Stream are the table of WebTransport streams, Tasks the send actor and
--               the reader of a stream, StreamCalls the calls of the Dart side, StreamRun a run of all.
--   Vad         packages/dart_edge_vad/rust/src/lib.rs: Request, Segment and Network are its requests, its
--               segments and the runs of the network, Batch the detection on a whole input, Stream that on
--               a stream. Windows, Simulation, Draining, Ending, Calls, Answers, Whole and Equivalence compare
--               the two. Trim is the stream that leaves out silence; Slices, Cutting, TrimCalls and TrimLife
--               are about it.
--   Audio       packages/dart_edge_audio/rust/src/lib.rs: Sample, Format and Remix are its samples, target
--               formats and channel layouts, Pcm16 and Convert the session of PCM16 audio and what it is
--               converted to before the encoder, Peaks and Waveform the waveforms, MemoryStream the stream in memory and the
--               reading of a stream to its end. Pushing, Frames, Shape, Held and Gathering are about
--               sessions; Observed, SessionRun and Streaming about a waveform in a stream; Envelope,
--               Levels, Buckets, Observing and Tiling about its peaks; MemoryRead about the reading, and
--               Sending about such a stream as the body of a response.
--   Base, Text  what the above share: lists and maps, words of 64 bits, results; bytes, the text
--               operations of the Rust library that lib.rs uses, and UTF-8 with its lossy reading.
-- The other files of a folder hold lemmas, and its Tests hold runs on concrete inputs.
--
-- Numbers and texts: a counter of the pool and an id are bit patterns of 64 bits that wrap around. A
-- text is the list of its bytes. A hash map is an association list with one entry for a key. A mutex is
-- not shown: what a lock covers is one step. Where a call takes several locks in turn, Steps of Runtime
-- has them apart; the histories of Calls are of calls that do not overlap. A bounded channel of the Rust library is its list and its
-- bound; an unbounded one is what was sent and whether the receiver lives.
--
-- Most definitions are structural in the list that they go through, and a thread that runs on is a
-- sequence of actions. The loops of Vad over windows have one round of fuel for each sample, which is
-- enough since a window has 512; the loop of Multipart has one for each byte of the body, and its
-- cursor goes on in each. The loop that reads a stream has its rounds as an argument: a stream in memory
-- needs one for each chunk of 64 KiB and one more. Fourteen actions are enough for a worker's round.
--
-- Not modelled: the libraries that the code calls (axum, tokio's scheduler, serde_json, jsonschema,
-- wtransport, diesel, better-auth, pjsip, the AWS SDK, ONNX), raw pointers and their release, floating
-- point, and the Dart packages. What other code supplies is an argument: the result of a job's handler,
-- whether the Dart VM takes a message, whether a weak exchange fails, the compiled schemas, the arguments
-- that have been read from pointers, whether memory can be had, what the network gives for a window, the
-- reads of a native stream.
-- Of the repository's own code the SQL, S3, OpenAI, SIP, Bluetooth and auth packages and the WebTransport
-- client are left out: most of it is calls of such libraries. So are the audio package's calls of
-- symphonia, hound and rubato, by which it decodes files, writes WAV and resamples, and its
-- encoders, which refuse some numbers of channels that a request may have.
pub mod Base
pub mod Text
pub mod JobPool
pub mod Routing
pub mod Query
pub mod Runtime
pub mod Realtime
pub mod Http
pub mod Vad
pub mod Audio
