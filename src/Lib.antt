-- ===== src/Lib.antt =====
-- Verification of libcomm, the C++ library by which the parts of a MIDI to PWM device talk to each
-- other: frames with a CRC over any byte link, a stream processor that cuts frames out of a byte
-- stream, endpoints that put FlatBuffers messages into frames, and a manager for firmware updates.
--
-- Crc models the lookup table and FrameTransport::ComputeCrc32 of src/frame_transport.cpp;
-- Crc.Reference compares it with the bit-serial CRC-32 and Crc.Detect shows which changes it
-- notices. Transport models FrameTransport (include/libcomm/frame_transport.h,
-- src/frame_transport.cpp): transmit_frame is TransmitFrame with its static buffers as the record
-- Statics, next_sequence is NextSequence, send is Send, build_frame is BuildFrame, handle_incoming
-- is HandleIncoming. Transport.Frame says what a frame is, apart from any buffer; Build, Transmit,
-- Sequence, Receive and Damage prove what the operations do with frames, Outcome has Send on every
-- branch, and Packets compares the accepted bytes with the packets they stand for.
--
-- Stream models StreamProcessor (include/libcomm/stream_processor.h, src/stream_processor.cpp):
-- feed, reset, extract_frames for extractFrames with its rounds, try_sync for trySync. It calls
-- handle_incoming of Transport. Stream.Pending has a scanner on plain lists, Refine and Loop tie
-- the array to it, Terminate and Hang are about the end of the loop, Safety about calls of feed
-- with any bytes, Deliver, Feed and Chunks about streams of frames.
--
-- Stream.Damaged and Recover are about a damaged frame in the middle of a stream, Noise about bytes
-- in front of one that are no frames, Waiting and Bytewise about what the buffer holds between the
-- calls. Transport.Shared has several transports that share the static buffers.
--
-- Link puts FrameTransport at one end of a byte link and StreamProcessor at the other. Link.Threads
-- cuts Send into its two atomic steps, NextSequence and TransmitFrame, which each hold a mutex, and
-- runs threads under any schedule; Keep is the invariant, Allocate and Transmit prove the steps,
-- Order the runs.
--
-- Ota models OtaManager (include/libcomm/ota_manager.h, src/ota_manager.cpp), with IFlashWriter
-- (include/libcomm/flash_writer.h) and the progress callback as parameters that act on the state of
-- the device. Ota.Command has sequences of calls, Protocol an automaton over the calls of the flash
-- writer, Keeping and Discipline the proof that the manager keeps to it, Session a whole update,
-- Activation when handleEnd activates, Progress what the host learns, Reports is about the reports
-- apart from what the callback does with them.
--
-- Endpoint has what MidiEndpoint, PwmEndpoint, OtaEndpoint and LogEndpoint share, and a child for
-- each (src/midi_endpoint.cpp, src/pwm_endpoint.cpp, src/ota_endpoint.cpp, src/log_endpoint.cpp,
-- with the tables of schemas/). Their Send and HandleIncoming go through Transport; Midi.Messages,
-- Pwm.Messages and their Built have the builders; Endpoint.Wire sends messages of an endpoint over
-- a byte link to a StreamProcessor whose callback is HandleFrame; Endpoint.Ota.Device joins
-- OtaEndpoint to OtaManager, and Endpoint.Ota.Update runs a whole update from the builders of a
-- host over a byte link to the flash of the device; Endpoint.Ota.Report sends the progress reports
-- back to the host over another.
--
-- Dbus models the D-Bus transport of the examples (examples/dbus_transport): Client has
-- DBusClientTransport, Server DBusServerTransport, on the record Libdbus of the calls that they
-- make; References is about the ownership of messages, and Receiver puts CombinedHandler of
-- examples/dbus_receiver/main.cpp behind the server. Logging models include/libcomm/logging.h and
-- src/logging.cpp; Logging.Deliver runs programs of log calls.
--
-- A byte is a number below 256 and a word one below its power of 2, with wrap-around written out
-- where the code can reach it: the sequence number, the chunk counter, and the sums of std::size_t,
-- whose width is the parameter size_modulus. A delegate is an optional function on an explicit
-- state; a pointer with a size is a Span, null or a list. The loop of extractFrames runs on fuel of
-- one more than the bytes held, which is enough because every round but the last takes a byte off
-- (Stream.Terminate), on a std::size_t in which no announced size wraps. All other loops are
-- structural.
--
-- Not modelled: the code that flatc generates and the FlatBuffers and ETL libraries (the record
-- Schema stands for the generated functions, and Carries for what is relied on), libdbus (the
-- record Libdbus), the log calls inside the components and what goes to stderr, the main functions
-- of the example programs, which do not compile against the present endpoints, and hosts that are
-- not little-endian. Outside Link.Threads and Transport.Shared there is one call at a time.
-- Callbacks do not call back into the object that calls them.
pub mod Common
pub mod Crc
pub mod Transport
pub mod Stream
pub mod Link
pub mod Ota
pub mod Endpoint
pub mod Dbus
pub mod Logging
