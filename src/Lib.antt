-- ===== src/Lib.antt =====
-- A verification library for LibAnt, a C++ library of utilities for network servers.
--
-- The program's parts are mostly independent of each other. The binary streams stand on the
-- conversions of byte order; packet checksums stand on the Internet checksum. Paths are from the
-- repository's root.
--
--   Common        the names that all modules share, tests of unsigned numbers, lists over the native
--                 numbers, bitwise operations by digits, and memory blocks as lists of bytes
--   Endian        include/libant/encoding/binary/endian.h: ByteSwap and the conversions between host
--                 and big-endian or little-endian, for every integer type and both builds. The
--                 system's functions and byte order are a `Platform` with laws `IsPlatform`
--   Binary        the streams. Writer: BinaryWriter (binary_writer.h). Reader: BinaryReader
--                 (binary_reader.h), with `pos_` as a number of 64 bits. Buffer: BinaryBuffer
--                 (binary_buffer.h), whose pointers are indices into its block. Message: what a writer
--                 and a reader do together
--   Checksum      include/libant/checksum/checksum.h and src/checksum/checksum.cpp
--   Net           src/net/checksum4.cpp and src/net/checksum6.cpp; Ipv4, Icmp and Tcp are about the
--                 checksums of a packet's parts
--   Ports         src/net/ip4.cpp, ip6.cpp, udp4.cpp, udp6.cpp and tcp6.cpp of the same directory: the
--                 ports of packets and the search for the transport header
--   Hex           include/libant/encoding/hex/hex.h; `toupper` and the sign of `char` are parameters
--   Crypto.Xxtea  include/libant/crypto/xxtea.h and src/crypto/xxtea.cpp
--   ShmQueue      include/libant/interprocess/containers/shm_circular_buf_queue.h and its .cpp file under
--                 src/: the queue in shared memory. System: one producer and one consumer; a
--                 step is one look at the offset of the other side, one read of a length or one store.
--                 Blocks, Valid: the layout of the segment and what running calls know. Stores, Turns:
--                 the steps of Push. Pops, Heads, Takes: those of Pop. Reachable, Progress, Aligns,
--                 Drained: what follows for the callers
--   Bits          include/libant/bits/bits.h. Places: the digits of the masks. Independent: arrays.
--                 Value: numbers
--   BufferPool    include/libant/buffer_pool/buffer_pool.h. Steps: the pool, the buffers in use and what
--                 users do. Invariant, Reachable: sizes and owners of buffers
--   Timer         include/libant/timer/timer.h. Sorted: the order of the multimap. Due: which timers are
--                 due. Update: what Update calls and leaves
--   Strings       include/libant/utils/string_utils.h and src/utils/string_utils.cpp. Find: searches for
--                 separators. Split: splitting. Text: the text of vectors, and trimming
--   FilePurger    include/libant/file_utils/file_purger.h and src/file_utils/file_purger.cpp. Kept: that
--                 a round of purging leaves no old file
--   ThreadPool    include/libant/thread/thread_pool_ex.h, src/thread/thread_pool_ex.cpp, and what
--                 include/libant/thread/thread_pool.h shares with them. Steps: callers and workers,
--                 a step being what a thread does under the mutex. Workers, Effects: sums over the
--                 workers, what a step does to them. Invariant, Kept, Once: the invariants.
--                 Reachable, Lost: what follows
--
-- Integers of the program are natural numbers with their wrap-around written out; values of signed
-- types are their bit patterns. A string or a block of memory is the list of its bytes. A failed
-- assert, a division by zero and the end of fuel are values: `none`, or `fault`. So is the read out of
-- bounds in the strings of BinaryReader; in other places, such as Ports, Net and Crypto, a read behind
-- the end of a list gives 0 and a write there is dropped, so that such accesses are not seen.
--
-- Loops on fuel: `fold_loop` has fuel for two rounds, which is what folding a 64-bit sum takes;
-- `decrypt_rounds` has fuel for 32 rounds, which is the number for the shortest array; `walk` has the
-- length of the packet as fuel, and each extension header takes at least 8 bytes of it. The theorems
-- on them say that they return a result. A call of `Push` of the shared-memory queue takes 25 steps at
-- most: ten looks in each of two loops, and the stores behind them; one of `Pop` takes 8. Update of the timers takes a round for each
-- timer that is due and one more, if callbacks add only timers that are not yet due; SplitString takes at
-- most a round for each character and one more, if the separator is not empty.
--
-- Not modelled: the logger and the copy of {fmt} in it, the HTTP and Kafka clients, system services
-- (epoll, daemon, signal, resource), which are I/O; mapping and unmapping of shared memory; the
-- configuration of jobs in ThreadPool; the thread of the file purger; hashes and the other utilities,
-- which are left to later work. That the compiler's optimisations keep
-- the meaning of casts between pointer types is assumed.
pub mod Binary
pub mod Bits
pub mod BufferPool
pub mod Checksum
pub mod Common
pub mod Crypto
pub mod Endian
pub mod FilePurger
pub mod Hex
pub mod Net
pub mod Ports
pub mod ShmQueue
pub mod Strings
pub mod ThreadPool
pub mod Timer
