-- ===== src/Lib.antt =====
-- QuicFrame, a request and response framework over QUIC streams.
--
-- Parts and files. A request is one bidirectional stream: the client writes a request frame, the
-- server's dispatcher reads it, routes it through middleware to a handler, and the handler writes
-- reply frames.
--
--   Protocol/Types    protocol/types.go: frame types, wire records, the size limit.
--   Protocol/Stream   the byte streams that io.Reader and io.Writer stand for: input left and how
--                     it ends, output so far, and which coming writes fail and after how many
--                     bytes. `Io A` is an operation on a stream with a Go (value, error) result.
--   Protocol/Codec    protocol/codec.go: WriteFrame, ReadFrame, WriteError, the decoders.
--   Framework/Context framework/context.go: the Context, its replies (Send, MsgPack, NoContent,
--                     Error), in Context/Writer NewStream and the StreamWriter, in Context/Access
--                     the accessors, cookies and MustGet.
--   Framework/Handler HandlerFunc, MiddlewareFunc and applyMiddleware of framework/router.go.
--   Framework/Path    parsePattern, splitPath and matchSegments of framework/router.go.
--   Framework/Router  the table of routes, add and match of framework/router.go.
--   Framework/App     framework/app.go: registration and dispatchStream; App/Groups is Group,
--                     App/Listening the listeners, App/Transports the WebTransport server and the
--                     settings, App/Serving the goroutines of a running server with their wait
--                     group, and Shutdown.
--   Framework/Quic    the fields of quic.Config that the source sets.
--   Framework/Client  framework/client.go: RequestWithHeaders on an opened stream, and in
--                     Client/Connection Dial, Close and WatchCertFile.
--   Framework/Validation  framework/validation.go: Validate and the text of its error.
--   Middleware/Auth, Recovery, Headers, RateLimit, Logger
--                     middleware/auth.go, recovery.go, validation.go, ratelimit.go, logger.go; in
--                     RateLimit/Shared requests that overlap.
--   Pki               pki/pki.go: identities on disk and their rotation.
--   Tlsutil           tlsutil/certs.go: self-signed certificates and their reuse.
--   Certificates      what these two use of crypto, os and time, with its laws.
--   Examples/BasicServer  examples/basic-server/main.go: its users, handlers and routes.
--   Examples/ChatHub  examples/streaming-demo/main.go: the rooms of a chat, their channels, and
--                     posting a message; in ChatHub/Reader the stream of a room.
--   Examples/ItemStreams  its handlers that stream a number of items.
--   Examples/ApiServer    cmd/example/main.go: its app, with a group behind JWT.
--   Examples/PushStreams  the handlers of this one and of the streaming demo that push items over
--                     time.
--   Examples/MtlsPki  examples/mtls-pki/main.go: its app.
--   Examples/Starting     how the example servers start: certificate, hash, listeners, exit code.
--   Transport         transport/transport.go: the protocols of a control channel.
--   Cli               internal/cli/cli.go: the command line and the starter app.
--   Prelude           numbers, texts, Go errors, dictionaries. Samples is data for the examples.
--
-- State. Functions that change an object take it and return it. A handler takes a `Run`, its
-- context and the application's own state of any type, and returns it with an exit: an error value
-- or a panic. The stream stands in the context, as the source's pointer does; the dispatcher
-- writes its own error frame to the same stream. Strings and byte slices are lists of numbers, one
-- for each byte. The length of a frame is 32 bits and a stream's sequence number 64 bits, with
-- their wrap-around. Maps are association lists with one entry for each key that was inserted.
--
-- The goroutines of a server are modelled by a list of events, in the order in which they happen:
-- a connection is accepted, a stream is opened, a stream's goroutine runs to its end or gets stuck for
-- ever, as one does whose peer or handler never ends. An event that cannot
-- happen in a state makes the run `none`, so a theorem about the runs that are not is about all
-- interleavings. Code that works on files takes the disk and returns it (`Eff`), and each call of
-- time.Now and of the random source is an argument.
--
-- Parameters. msgpack (Marshal and Unmarshal for each type), url.Parse, the part of
-- strings.ToUpper and strings.TrimSpace that concerns Unicode, the JWT parser, the token bucket of
-- x/time/rate, the clock, the struct validator, the file system, crypto/x509, crypto/tls,
-- encoding/pem, and the listeners of quic-go are arguments, with no
-- hypothesis unless a theorem names it.
--
-- Bounds. Digits are found on fuel, the number plus one, and a lemma reads the number
-- back from them. All other loops are recursions on the input, the routes, the middleware, a count
-- or the list of events.
--
-- Not modelled: the connections and sessions of quic-go and webtransport-go, the inside of the
-- HTTP/3 server, the format of log lines, and the goroutines that wait for a signal. The goroutine
-- of one stream is one event of a server's run: two streams that run at once do not interleave in
-- their handlers, and the rate limiter's map is state that they pass on; only RateLimit/Shared and
-- the hub of the chat have finer steps.
pub mod Prelude
pub mod Protocol
pub mod Framework
pub mod Middleware
pub mod Samples
pub mod Cli
pub mod Certificates
pub mod Tlsutil
pub mod Pki
pub mod Transport
pub mod Examples
