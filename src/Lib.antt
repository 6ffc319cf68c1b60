-- ===== src/Lib.antt =====
-- A verification of the parts of a media server that decide what is served and how it is carried:
-- the paths on which streams are published and read, who may use them, what becomes of H264
-- streams on the way, the transport of RTMP messages, and the pages of the API's lists.
--
-- The parts and how they interact. A path (internal/core/path.go) is an event loop. Publishers,
-- readers and a static source send it requests on channels; timers of on-demand sources fire; it
-- answers each request on the request's own channel, starts and stops sources, commands and
-- recordings, and leaves its parent as it ends. Its parent is the path manager
-- (internal/core/path_manager.go), which finds the configuration of a name, checks who asks, and
-- creates, reloads and removes paths. A stream hands each unit and packet to a format processor
-- (internal/formatprocessor) before readers get it. An RTMP connection writes messages
-- (internal/protocols/rtmp/rawmessage/writer.go) as chunks (internal/protocols/rtmp/chunk), and
-- joins the chunks it receives (internal/protocols/rtmp/rawmessage/reader.go); each direction
-- keeps, per chunk stream, what it needs to leave out of the next header.
--
-- Which file models which part:
-- - MediaPath/Conf.antt: the fields and tests of internal/conf/path.go that a path reads.
-- - MediaPath/State.antt: the path's fields as a record, requests and replies of
--   internal/defs/path.go, and the calls of the outside world as a list of actions, newest first.
--   The answers on a request's channel are actions; a panic of Go is a result of its own.
-- - MediaPath/Step.antt: the helper methods of internal/core/path.go, such as setReady,
--   setNotReady, onDemandStaticSourceStart, addReaderPost, consumeOnHoldRequests.
-- - MediaPath/Handlers.antt: the do... methods, one definition each, under their names.
-- - MediaPath/Run.antt: runInner as `handle`, `step` and `run_inner` on a list of events, the
--   head and the tail of run as `start` and `finish`.
-- - MediaPath/Invariant.antt, Safety, Life, Closed, Replies, Balance, Waiting, Limits, Ownership:
--   proofs.
-- - Rtmp/Bytes.antt: io.ReadFull and big-endian integers on lists of bytes.
-- - Rtmp/Chunk.antt: chunk0.go to chunk3.go of internal/protocols/rtmp/chunk.
-- - Rtmp/RawMessage/Message.antt, Reader.antt, Writer.antt: message.go, reader.go and writer.go
--   of internal/protocols/rtmp/rawmessage. The cases of readMessage are definitions of their own.
-- - Rtmp/Chunk/RoundTrip.antt, Rtmp/Chunk/Progress.antt and the other files under
--   Rtmp/RawMessage: proofs. Written says what the writer sends; Progress follows the fuel of the
--   reader's loop; Rounds, Receiving, Delivery, First and Begun follow the reader over it; Synced
--   and Chosen relate what the two remember; RoundTrip joins them.
-- - Rtmp/Control.antt: the control messages of internal/protocols/rtmp/message, one file of the
--   source each, and allocateMessage of its reader.go as far as it chooses among them.
--   Rtmp/Control/RoundTrip and Accepted are proofs.
-- - Rtmp/Error.antt, Media.antt, Extended.antt, Amf.antt, Codec.antt: the audio, video, extended,
--   command and data messages, and allocateMessage. Amf has the AMF library as a parameter.
-- - Rtmp/Link.antt: Reader, Writer and ReadWriter of internal/protocols/rtmp/message, on top of
--   the raw messages. Rtmp/Link/Delivery is about two peers that are connected.
-- - PathManager/Conf.antt: isValidPathName and FindPathConf of internal/conf/path.go, and
--   pathConfCanBeUpdated. PathManager/Auth.antt: internal/core/auth.go and internal/core/ip.go,
--   with Check of internal/conf/credential.go.
-- - PathManager/State.antt, Reload.antt, Handlers.antt: pathManager of
--   internal/core/path_manager.go, its two maps of paths, doReloadConf, and the loop with the
--   other handlers. A path is a number for its pointer with the fields that the manager reads.
--   Invariant, Closing, Creating, Reloading, Reloaded, Upkeep, Running and Reached follow the two
--   maps through the handlers; Search, Access, Staying and Replying are about requests.
-- - FormatProcessor/H264.antt, Process.antt: internal/formatprocessor/h264.go, with
--   multiplyAndDivide of processor.go. Process has the RTP library as a parameter.
--   FormatProcessor/H265.antt: the parameters of internal/formatprocessor/h265.go. A nil slice of
--   parameters is none; an index out of range is none as a result.
-- - Api.antt: paginate and paginate2 of internal/api/api.go. Api/Pages and Api/Panics are about
--   the pages and about panics.
-- - MediaPath/Examples.antt, Api/Examples.antt, FormatProcessor/Examples.antt,
--   Rtmp/Examples.antt, Rtmp/Control/Examples.antt, Rtmp/Link/Examples.antt,
--   PathManager/Examples.antt: runs on concrete inputs.
-- - Base, Base/Tests.antt, Base/Lists.antt, Base/Text.antt: shared names, Boolean tests, lists
--   and texts as lists of code points.
--
-- State and time. Handlers of a path run one after the other in one goroutine, so an order of
-- events is a list. A timer is a Boolean that says whether it is armed: its expiry is an event.
-- Maps whose order is not specified in Go are lists in some order.
--
-- Integers. uint32 counts, differences and timestamps wrap around with % 2 ^ 32 where the source
-- adds or subtracts. Bytes are numbers below 256. An int64 duration, and the int of the API's
-- pages, whose width is an argument, are in two's complement. Masks with & and | of disjoint bits
-- are checked on all values of a byte.
--
-- Fuel. The loop over a STAP-A packet has fuel of the bytes that are left, since each round takes
-- three or more. The loop of the reader's Read has fuel of one more than the bytes that are left,
-- since each round takes a byte. The loop that splits a body has fuel of the body's length, since
-- each round takes a byte where the chunk size is not 0; with a chunk size of 0 Go's loop does
-- not end, and the model is stuck.
--
-- Parameters. The AMF library, the libraries for regular expressions, addresses, hashes and RTSP
-- headers, the external authentication server, the byte counters below the buffers, the callback
-- that sends an acknowledgement, and whether the creation of a stream succeeds are arguments of
-- the model.
--
-- Not modelled: the API's read request on a path, the environment and the contents of commands,
-- resolution of $G groups, the senders on the channels, negative values of maxReaders; writes to
-- a connection that fail, negative timestamps, bodies of 2 ^ 32 bytes and more; the functions by
-- which other goroutines send a request to the path manager and wait for its reply, the loading
-- and validation of configurations; the remuxing of H265 units and the processors of other
-- formats; and all other components, most of which call third-party protocol libraries.
pub mod Api
pub mod Base
pub mod FormatProcessor
pub mod MediaPath
pub mod PathManager
pub mod Rtmp
