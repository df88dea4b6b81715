-- ===== src/Lib.antt =====
-- Verification of rs-io, a C++ library of I/O utilities: URIs, path names, streams, channels
-- between threads, a thread pool, and network addresses. The sources are the files of source/rs-io.
-- Code of other libraries (rs-format, rs-tl, the C library and the system) is a parameter of the
-- definitions that use it, with the behaviour that the code relies on as named hypotheses.
--
-- Base and Text hold what the components share: the native numbers with Boolean tests, lists
-- measured by them, and the operations of std::string on texts, which are lists of bytes.
-- Text.Decimal is std::to_string and the digits read by strtoul.
--
-- Uri (source/rs-io/uri.hpp and uri.cpp). A URI is its text with seven offsets. Uri.Defs has the
-- record and the presence tests, Uri.Edit the setters and clearing functions, Uri.Encode the
-- escapes, Uri.Access the accessors, Uri.Parse the constructors, Uri.Related doc, base, parent,
-- root and the halves of the path, and Uri.Query make_query, with parse_query in its child.
-- Uri.Parts is the abstract view, one text for each component, and `build` lays it out; Uri.Spec
-- says what the code does to each component, Uri.Changes with `set_scheme`. Uri.Segments, Uri.Presence
-- and Uri.Clears are lemmas on it. The
-- offsets are natural numbers; the sources use int, so texts are taken to be shorter than 2^31.
-- Regular expressions are matched by parameters.
--
-- Channel (channel.hpp and channel.cpp). Each method holds the mutex of its channel, so it is one
-- step on the channel's state, and a list of calls is one order in which threads get the mutex. A
-- wait on a condition variable ends in a state that other threads leave. Queue also has
-- GeneratorChannel. Times are counts of the clock's ticks. Condition variables are not modelled
-- beyond this. Channel.Buffer.Collect is read_all of a channel of bytes, with the calls of other
-- threads in each round. Channel.Dispatch is the class Dispatch: a round of `run` takes from outside
-- what each channel and its handler do; the rounds are a list, and `run` may go on after them.
-- Channel.Dispatch.Stop is `stop`, by the rounds of each call of `run`, and Channel.Dispatch.Handlers
-- the handlers that `add` makes for channels of messages and of bytes. Callbacks that change the set of
-- channels while `run` is inside are not modelled.
--
-- ThreadPool (thread-pool.hpp and thread-pool.cpp). The steps of the threads that insert, work and
-- clear, in any order; the state also keeps the history of the jobs. The number of jobs is taken to
-- be below the range of int. `wait_until` is a loop over the states that it sees, with `none` for a
-- wait that goes on after them. ThreadPool.Each is `each`, with a sum beyond the range of int as an
-- outcome; its fuel is one more than the distance between the ends of the range.
--
-- Stdio (stdio.hpp and stdio.cpp). Stdio.Device has the functions of IoBase over any device that
-- reads and writes; Stdio.Streams and Stdio.Writes say what a source and a sink of bytes are. A
-- loop takes fuel, and one more than the number of bytes left is enough. Stdio.Cfile is
-- Cstdio::read_line and Stdio.Cfile.Calls the other functions of Cstdio; Stdio.Descriptors is Fdio, with
-- programs of such objects in Stdio.Descriptors.Program, and
-- Stdio.Modes opens files for both by mode. Each call of the C library ends in a state, a result and
-- errno. Stdio.Temp is TempFile.
--
-- FilePath (path.hpp and path.cpp, on Posix). FilePath.Canonical is make_canonical, in steps; its
-- loops are recursion on the text. FilePath.Names has the name functions, FilePath.Common the
-- common ancestor, and FilePath.Resolve relative_to and resolve. FilePath.Search is the deep search
-- over the tree that the file system shows; its bounds are the number of steps, and twice the
-- number of files is enough. FilePath.Listing is the directory iterator. FilePath.Files has the
-- update functions as functions on a state of the system, whose calls are the fields of a record: a
-- function ends in a state, and in a failure where the source throws. The fuel is the depth of the
-- recursion. readlink gives the whole target at once, where the source doubles a buffer; where a
-- failure names two paths the model names the first. FilePath.Files.Content is load and save over
-- fread and fwrite. FilePath.Files.Stat has the queries, size, the times and the current directory over
-- stat, lstat, utimensat and getcwd; its loop doubles a buffer of 256 bytes, and its fuel is the number
-- of calls. FilePath.Compare has the comparison objects.
--
-- Net (net.hpp and net.cpp). Hashing, Hex and Order are the hash, the hexadecimal text and the
-- order of blocks of bytes. Net.Address is SocketAddress by its memory, in the layout of Linux,
-- Net.Address.Texts the reading and writing of addresses, Net.Ip the classes IPv4 and IPv6 and the
-- literals, Net.Dns the name queries by the answers of getaddrinfo and getnameinfo, and Net.Sockets
-- has SocketSet and the transfers of Socket by the answers of select, send and recv, which stand in
-- lists and so bound the loops. Net.Sockets.Connect has the constructors of clients and servers.
--
-- NamedMutex (named-mutex.cpp, on Posix) over a semaphore, and its polling loop for macOS. Process
-- (process.cpp, on Posix) has StreamProcess and TextProcess by the answers of fread, select and the
-- clock. Signals (signal.cpp, on Posix) is PosixSignal by the answers of sigtimedwait and sigwait, with
-- the signal numbers of Linux. Resource (utility.hpp) is the owner of a handle.
--
-- Time (time.hpp and time.cpp): the conversions of time points to timespec and timeval and back, on
-- counts of nanoseconds, with the division of C++ on negative numbers.
--
-- Tests has the theorems at concrete inputs.
--
-- Not modelled: the branches for Windows, Winio among them, and those for macOS but for the polling
-- loop; the masks of threads for signals; the starting of a process; the error categories of the name
-- queries. These are calls of the system, or tables.

pub mod Base
pub mod Text
pub mod Uri
pub mod Channel
pub mod FilePath
pub mod Stdio
pub mod Tests
pub mod ThreadPool
pub mod NamedMutex
pub mod Signals
pub mod Resource
pub mod Process
pub mod Net
pub mod Time
