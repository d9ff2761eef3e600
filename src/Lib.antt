-- ===== src/Lib.antt =====
-- A model of damanager, the memory manager daemon of DASim, and of its demo buffer manager.
--
-- The daemon gives clients regions of memory that it backs with huge pages. Each client has a
-- connection on which it sends calls (Client, for damanager/src/client.cc, with the messages of
-- damanager/include/damanager/call_types.h in Calls). The calls run under the mutex of the client
-- manager (Manager, for damanager/src/client_manager.cc), which counts the mappings of each region,
-- publishes regions through XPMEM, and resolves page faults that userfaultfd reports. It asks a
-- buffer manager for memory through the virtual class of damanager/include/damanager/
-- buffer_manager.h (Manager/Interface). Demo models the one implementation,
-- damanager/src/demo_buffer_manager.cc: its RAM is one file, and pages move between it and swap
-- files, or the files of persistent regions. Types has damemory/include/damemory/types.h.
--
-- Library models the library that clients link, damemory/src/damemory.cc, over a connection that is
-- a parameter, and Util the wait for a descriptor or for shutdown, damanager/src/util.cc.
--
-- Vfs models the file system for SQLite that keeps each file in a region, demo/include/
-- damemorydemovfs.h, over the functions of damemory/include/damemory/damemory.h, which
-- Library/Api states as an interface and fills with the library.
--
-- Daemon has the command line of damanager/src/main.cc and the manager that is made from it, and
-- Uffd the helpers for userfaultfd of experiments/common.h, which two test programs have copies of.
--
-- Base holds the tests, lists, maps and 64-bit words that all parts use. Demo/Pte, Demo/State and
-- Demo/PageIo have the data and the transfer loops; Demo/Paging the faults (swap_in_page,
-- find_swappable_page, swap_out_page, unfix, mark_dirty); Demo/Regions the life of a region
-- (allocate, free, anchor, unanchor, get_anchored_region); Demo/Persist the write-back. Operations
-- keep the names of the source, and a part of one that has a definition of its own says so.
-- Manager/State has the state, Manager/Ops the operations, Manager/Faults `handle_userfault`.
-- Demo/Backing says what clients see of their regions, wherever the pages are, and refines the
-- manager to a plain memory. Demo/Instance fills the interface with the demo buffer manager. Below each part, modules named
-- for what they prove have the proofs, and those named Tests run the definitions.
--
-- State is passed explicitly, and an operation returns its code, its output arguments and the new
-- state. `none` stands for an operation that does not return: DASIM_FATAL, an exception that
-- nobody catches, an access out of bounds, or a loop that does not end. The system and the kernel
-- are parameters: `Os` answers system calls on files, `Kernel` answers XPMEM and userfaultfd by the
-- trace of the calls before. Memory and files are functions from offsets to bytes. Numbers are
-- natural numbers; where the source adds or subtracts 64-bit words that may wrap around, so does
-- the model.
--
-- The transfer loops run on fuel of one round for each byte of a page and one more, which is enough
-- as every transfer that succeeds moves a byte; a write that fails moves the index back by one
-- with wrap-around, as the source does. `handle_calls` takes the list of what arrives, which ends
-- where shutdown is signalled.
--
-- Not modelled: sockets, threads and the acceptance of clients; the log, and the calls of unlink
-- and munmap in the manager, which have no effect on the state that is left; demo/include/demovfs.h,
-- which is a copy of a file of SQLite; the kernel experiments, the XPMEM tests, the benchmarks and
-- the demo programs.
pub mod Base
pub mod Calls
pub mod Client
pub mod Daemon
pub mod Demo
pub mod Library
pub mod Manager
pub mod Types
pub mod Uffd
pub mod Util
pub mod Vfs
