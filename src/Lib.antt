-- ===== src/Lib.antt =====
-- membridge: shared memory for Python processes, in Rust.
--
-- A process creates or opens a named segment (src/shared_memory.rs over src/platform) and maps it
-- either as a `MappedView`, typed reads and writes under a reader-writer lock, or as an
-- `SpscRingBuffer`, a queue of messages between one producer and one consumer. Both pack Python
-- values with one codec, and report errors as Python exceptions.
--
-- Parts:
--   Error    src/error.rs: `ShmError`, its conversion to `PyErr`, and `PyResult`. A message is a
--            constructor with the values that the format string shows.
--   Codec    src/mixed.rs: `pack_value` (Codec/Pack), `unpack_one` (Codec/Unpack) and
--            `unpack_mixed_counted` (Codec/Mixed), on lists of bytes. Codec/Value holds the Python
--            objects, and `Runtime` the target's byte order, UTF-8 and the widening of `f32`, which are
--            parameters. `DecodesText` is what the round trips rely on: text that `str::as_bytes`
--            made is decoded without loss. `Names` (Codec/Tags) lists the names of the types, apart from
--            `parse_tag`, which reads them.
--   Ring     src/spsc.rs: `SpscRingBuffer` on the mapped segment: `new`, `push`, `pop`, `pop_mixed`,
--            `used`, `free`, `is_empty`, `is_full`, `capacity`. Fifo is what it promises: a queue of messages
--            bounded by their bytes. `Holds` relates a segment to a queue.
--            Ring/Duplex interleaves one producer and one consumer between any two accesses of the
--            segment, byte by byte.
--   Lock     src/rwlock.rs: `ShmRwLock`, its word as the bits of the `i32`. Lock/Calls has
--            calls one after the other, and `Held`, the reader-writer lock that they implement.
--            Lock/Threads interleaves any number of threads and processes between two accesses of the
--            word.
--   View     src/mapped_view.rs: `MappedView` and its methods, each under the guard that it takes. View/Guard uses
--            the loops of Lock. View/Processes interleaves `read_range` and `write` of any number of
--            processes between any two accesses of the word and of the bytes. View/Sessions does so for
--            every method, each process with a view and a cursor of its own: a method is a `Plan`, what
--            it does before its guard and the copy that it makes under it; one that takes no guard returns at
--            once, and `reader_count` and `is_write_locked` read the word as it is then.
--   Platform src/platform/mod.rs: what both `PlatformHandle` expose, as a record of operations on the
--            state of the system. Platform/Unix is src/platform/unix.rs over the calls of nix, the
--            parameter `Posix`; Platform/Win32 is src/platform/win32.rs over the calls of Windows, the
--            parameter `Win32`. `open_handle` is their `open`, and `attach` the part of
--            `SharedMemory::open` that stands under a `cfg`.
--   SharedMemory src/shared_memory.rs: `create`, `open` (`open_segment`), `remove`, `map` and `spsc`.
--            View/Layout and Ring/Layout are the bytes of a mapping as a segment. What the theorems
--            rely on are `Reopens`, `ReopensWin32` and `Maps`: a segment that was created (and, on
--            Unix, sized) is opened by its name (with that size), and a mapping shows as many bytes
--            as were asked for, and what is stored in it. A `Ledger` says how the calls of the system
--            change the descriptors and the mappings that a process holds, and `Segments` what descriptors
--            and mappings of one named segment show of its bytes. `on_mapping` and `calls_on` are the
--            methods of a view and of a ring on the bytes behind a mapping.
--   Classes  src/lib.rs: the registration of the classes, over PyO3's `add_class`, and what the
--            `__repr__` of each shows.
--   Common   helpers: numbers of a machine's width, lists and slices.
--   Tests    runs on concrete inputs.
--
-- Numbers: `usize` has 64 bits; additions and subtractions that can wrap are `add_usize` and
-- `sub_usize`, which wrap round 2 ^ 64 as a release build does. Casts such as `as u32` are `% 2 ^ 32`.
-- The lock's word is a number below 2 ^ 32.
--
-- Fuel: the loops of the lock take a number of rounds. When no other process touches the word, one
-- round is enough where the lock is free, and no number is enough where it is held. All other loops
-- are recursion on a list or a count.
--
-- Bounds: a ring is taken to have at most 2 ^ 32 bytes, since the prefix of a message has 32 bits, and
-- a view fewer than 2 ^ 63. Fewer than 2 ^ 31 threads use one lock.
--
-- Not modelled: weak memory orders. Accesses of atomics are sequentially consistent, and a block of
-- bytes is copied from its front, byte after byte. The texts of messages and of `__repr__` are data with
-- the values that they show. Elements of a Python list are values: a
-- list or a tuple inside a list is one of the unsupported types, as for `pack_value`.
pub mod Common
pub mod Error
pub mod Codec
pub mod Fifo
pub mod Ring
pub mod Lock
pub mod View
pub mod Platform
pub mod SharedMemory
pub mod Classes
pub mod Tests
