-- ===== src/Lib.antt =====
-- The C++ SDK of the neoruntime daemons (cpp/): its own logic, modelled from the sources under
-- cpp/src, with the theorems that make it correct.
--
-- The SDK's clients talk to daemons over gRPC and Unix sockets. What an application relies on is what
-- stands between the two: bounded queues that drop the oldest item, limits on failures in a row,
-- framing of packets on a byte stream, reconnects, leases on shared buffers, and threads that shut
-- down without losing a frame.
--
-- Base        shared names, lists, integers, bit operations, `Result` (a call that may throw) and
--             `Action` (one that also changes a state); `Double` is the type double as a parameter.
-- Subscribe   cpp/src/detail/subscribe_health.hpp (Queue, Limiter) and the stream of
--             cpp/src/inference.cpp (Stream): InferenceStream::next, close and cancel are next, close and
--             cancel, and the thread of InferenceClient::subscribe is pump.
-- Wire        cpp/src/detail/dsp_wire.hpp: buffers are lists of bytes (Words), and each message of the DSP
--             daemon is a function into or from them (Dsp).
-- Socket      recv_exact and send_all of cpp/src/detail/raw_socket.hpp, over lists of what the kernel
--             returns.
-- Transport   UdsStreamClientBase of cpp/src/detail/transport.hpp, over the outcomes of its connects.
-- Encoded     cpp/src/media/encoded_stream_client.cpp and the packet header of
--             cpp/src/detail/fd_protocol.hpp; it reads with Socket and connects with Transport.
-- Audio       cpp/src/audio_stream.cpp, with decode_audio_format of cpp/src/detail/fd_protocol.hpp; it reads
--             with Socket.
-- Injection   cpp/src/detail/injection_logic.hpp and the FramePublisher of cpp/src/injection.cpp, over the
--             camera daemon, the DSP daemon and the clock as a record of operations (Services).
-- Runner      cpp/src/runner.cpp: the reader, the worker and stop() as steps of three threads.
-- StreamPipeline
--             cpp/src/stream_pipeline.cpp: the result queue, the worker (Worker), and start, stop and
--             next_result (Life).
-- Media       cpp/src/media/fd_media_client.cpp: the messages and the client's data (Media), FrameHandle
--             and the retainer (Handles), the cached sockets (Sockets), recv_frame and get_frame (Receive),
--             FdMediaStream::next (Stream), list_streams (Listing), and of cpp/src/media/frame.cpp the copy
--             of a frame's planes (Pixels). The kernel's and the daemons' answers are scripts.
-- Detections  cpp/src/postprocess.cpp: nms, the end of the decoders and PreprocessMeta (Heads), and the two
--             YOLO decoders (Yolo), with float and double as parameters.
-- DspClient   cpp/src/dsp.cpp: the client's socket and its pools (DspClient, Pools), alloc_buffers (Alloc),
--             recv_one_msg and import_planes with its 64 rounds (Import), import_shared_buffers and
--             import_memfd (Shared), submit_job, wait_job and encode_rpc (Rpc), and PendingDspJob (Jobs).
-- Shapes      cpp/src/detail/geometry.hpp and the checks of cpp/src/dsp_format.cpp, with the rounding of a
--             double to an int as a parameter.
--
-- Fuel. EncodedStream::next and FramePublisher::acquire_slot_ids loop on what the network and the
-- daemon answer, and enqueue_terminal on a queue; they take a bound on their rounds, and a theorem for
-- each gives a bound that is enough. FdMediaStream::next takes its bound from what the scripts hold, and
-- AudioStreamClient::next_frame has one round more than the connects and the open socket. All
-- other loops are structural.
--
-- Not modelled: gRPC and protobuf, OpenCV and the accelerators, and the clients that copy fields between
-- structs and messages around one call; texts of errors, for which the model's errors carry the values
-- that are printed; memory orderings, the advisory counters being updated in one step; overflow of
-- `int`, which the code does not handle either (where resolve_geometry adds dest and inset, the model's
-- sum wraps around); NaN as a score, for which the comparator of nms is not an order.
pub mod Audio
pub mod Base
pub mod Detections
pub mod DspClient
pub mod Encoded
pub mod Injection
pub mod Media
pub mod Runner
pub mod Shapes
pub mod Socket
pub mod StreamPipeline
pub mod Subscribe
pub mod Transport
pub mod Wire
