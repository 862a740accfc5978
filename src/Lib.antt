-- ===== src/Lib.antt =====
-- The bus test platform, verified: the USB link between the device and the host, the data path of
-- the host, the decoding of bus frames and the simulation of a rest bus.
--
-- The parts and their files. Paths are from the repository's root.
--   Frame      shared/include/bus/bus_types.h and software/src/core/bus_frame.cpp: the frame that
--              every other part moves, and `make_frame`. Frame/Layout is the interface for the
--              object representation of a frame, which the compiler fixes. Frame/Text is
--              `frame_to_string`, with a reader of its texts.
--   Wire       shared/include/bus/usb_protocol.h: codes, sizes, the header, and the bytes of a
--              packet, written independently of the code that builds or parses it.
--   Firmware   firmware/src/protocol/usb_protocol_handler.c: `build_cmd`, `build_evt`, `build_data`,
--              `parse` and `handle_cmd` are the functions `usb_protocol_...` of that file.
--              Firmware/Loop is the loop of firmware/src/main.c over its USB driver, which never
--              hands out a command yet.
--   Codec      software/src/protocol/usb/usb_frame_codec.cpp: the host's end of the same link.
--              Codec/Front is what the receivers of packets read.
--   Signal     software/src/core/signal.h, over an interface for `double`.
--   Dbc        software/src/protocol/dbc/dbc_parser.cpp: messages and their lookup, the tokens of a
--              line (Text, Scan), the message line (Bo), the signal line (Sg), the results (Result)
--              and the loop over the lines (File). Sg/Print and File/Print write a file out.
--              `std::stoul` and `std::stod` are parameters.
--   Can        software/src/protocol/can/can_decoder.cpp: from payload bytes to signal values;
--              Can/Database goes from the text of a database to the values of a frame.
--   Pipeline   software/src/data/pipeline.cpp: the frame queue; Pipeline/Queue is what it promises.
--              Pipeline/Threads is the same code one load or store at a time, for two threads.
--   Rbs        software/src/engine/rbs/rbs_scheduler.cpp: the periodic frames of a simulated bus;
--              Rbs/Link takes them over the packets of Codec.
--   Hal        software/src/hal/usb: the device interface, the null device and the generator (Sim).
--   Capture    software/src/data/capture_service.cpp: from a device, through its interface, to the
--              pipeline. Capture/Threads has the worker, the thread that starts and stops it and the
--              consumer in any interleaving.
--   Workspace  software/src/core/channel.cpp, node.cpp and workspace.cpp;
--              Workspace/History has whole histories of calls, those through pointers included.
--   Bench      software/src/bench/bench.cpp: the sample frame, the loss test and the counting loops;
--              Bench/Report is `BenchReport` of bench.h, its gates and its printing;
--              Bench/Suite is `run_bench_suite` with its latencies.
--   Cli        software/src/main.cpp: the tool `busmon`, its commands, texts and exit codes.
--   Prelude    what the others share: Boolean tests, lists, keys, bits, powers of two, integers,
--              and the conversions of `printf` (Print).
--   Tests      concrete runs, a frame layout of one target and the theorems at concrete data.
--
-- How the code is read. An integer is a natural number with its wrap-around written out; a theorem
-- names the width of an argument where it relies on it. A pointer that may be null is an `Option`,
-- a buffer is the list of the bytes behind the pointer, and a capacity is an argument of its own, as
-- in the code. A function that reports failure returns `none`. State is passed explicitly. The
-- steady clock is an argument. `double` and the layout of a frame in memory are interfaces; nothing
-- is assumed of the arithmetic of `double`, and of a layout only that a well-formed frame is read
-- back from its bytes, that all frames have one size, and that a full packet fits 16 bits.
--
-- Bounds and fuel. The catch-up loop of the scheduler runs on fuel of `now + 2` rounds: each round
-- moves the deadline on by a period of at least 1, and the deadline starts at 1 or later, so while
-- the 64-bit clock does not wrap within a period the loop ends before that. Every other loop counts
-- down what it has left, the loops of the benchmark the readings of the clock. A number is printed
-- with at most the digits that its width needs: 20 for 64 bits, 10 for 32, and 8 in hexadecimal. The
-- firmware's main loop runs for as many rounds as there are contents of its buffer. The pipeline's
-- theorems hold until its 64-bit indices go round, which the histories are too short to reach.
--
-- Not modelled: the threads that the benchmark starts in its last stage, whose consumer's view is
-- an argument; what `printf` makes of a `double`; the Qt window; the set-up and the drivers of the
-- firmware other than the polling of commands, which are empty; the hardware description. The two
-- threads of the pipeline take turns at single loads and stores, and a load of the other thread's
-- index may return an old value; what the relaxed load of the head leaves open for the buffer
-- itself in the C++ memory model is not part of the model. An object that fails to allocate, and an
-- exception that leaves a function, are not either. A pointer to a channel or a node is its place
-- in the list; that the objects stay where they are is taken from `std::unique_ptr` and not proved.
-- An argument of a C integer type is unbounded in the builders of packets; what they do above the
-- type's range is not a call of the code.
pub mod Prelude
pub mod Frame
pub mod Wire
pub mod Firmware
pub mod Codec
pub mod Signal
pub mod Dbc
pub mod Can
pub mod Pipeline
pub mod Rbs
pub mod Hal
pub mod Capture
pub mod Workspace
pub mod Bench
pub mod Cli
mod Tests
