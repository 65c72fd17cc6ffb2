-- ===== src/Lib.antt =====
-- libopenusb: a library that reaches USB devices from user programs. A program opens a device by its
-- id, claims an interface, chooses an alternate setting and starts transfers; the library fetches and
-- caches the device's descriptors, and calls a backend of the operating system.
--
-- The parts of openusb/src that are modelled:
--
-- ParseData models `openusb_parse_data` (descriptors.c), which reads a format of bytes, words and
-- double words from a block into a structure. A block is a list of bytes, a pointer an offset in it;
-- reading outside is `fault`. The destination is an address, and what is written is the list of the
-- stores. ParseData.Layout, Alignment, Total, Bounds, Overruns and Prefixes state what it does.
--
-- Descriptors models the parsers of the same file over `openusb_parse_data`: the structures of
-- descr.h and openusb.h.in are in Descriptors, the loops that skip class specific descriptors in
-- Descriptors.Skip, `usbi_parse_endpoint` in EndpointParser, `usbi_get_intf_altno` in AltCounter,
-- `usbi_parse_interface` in InterfaceParser and `usbi_parse_configuration` in ConfigParser. A
-- pointer to a block is null, live or freed; what `calloc` answers is a parameter. Descriptors.Tree
-- has the descriptors as a tree and the bytes that a device sends for it; the modules on round trips
-- show that the parsers rebuild the tree from the bytes, with the lemmas in Reading,
-- EndpointsLoop, AltRoundTrip, InterfaceLoop, InterfacesLoop and Flatten.
--
-- Interfaces models claiming and alternate settings (api.c) over a record of a backend's
-- operations, and Interfaces.Linux those operations of linux.c over the ioctls of the kernel, which
-- are a parameter; Interfaces.Configuration has the calls about a device's configuration. A device's
-- mutex is a flag; taking it twice does not return.
--
-- Fetch models the control transfer of a descriptor and the loop of
-- `usbi_fetch_and_parse_descriptors` (descriptors.c) that asks a device for its configurations,
-- parses and caches them; what the device answers is a parameter.
--
-- Queries models `usbi_nth_desc`, `openusb_parse_interface_desc` and `openusb_parse_endpoint_desc`
-- (devices.c), which walk over the raw bytes of a configuration; Queries.Fixed the queries for a
-- device and a configuration, and Queries.Configs those between a configuration's index and value.
--
-- Timeouts models default timeouts (usb.c, api.c), the deadline that `usbi_alloc_io` (io.c) gives a
-- request, and what `timeout_thread` (usb.c) computes from the deadlines.
--
-- LinkedList models the doubly linked lists (list.c, list.h) in a heap of their two pointers. A ring
-- through a head (LinkedList.Rings) stands for the list of the addresses on it; LinkedList.Adding,
-- Removing, Moving and Walks are about the operations in these terms.
--
-- Transfers models `struct usbi_io` and io.c: allocating, completing and freeing an I/O; its state
-- has the memory of the I/Os, the device's `io_head` and the library handle's `complete_list`, which
-- are lists of addresses, as LinkedList justifies. Transfers.Checks has the checks of a request,
-- Transfers.Submit the submission over a backend's operations, and Transfers.Waiting `openusb_wait`
-- and `openusb_poll` (all api.c); Transfers.Wrappers has the calls for each type. Transfers.Calls has
-- the calls as steps in any order, and Soundness what of the lists they keep; Transfers.Traces has the
-- steps whose waits find a request at once, and Completion and Invariant what these keep, the count
-- of completions included, with the lemmas in Queues and Retrieval. Blocking, Synchronous and Refusals
-- are about waiting, synchronous requests and requests that are refused.
--
-- Devices models the lists of busses and devices and what refreshes them (devices.c), Devices.Search
-- the searches for devices by vendor and class; Refreshing and Matching are about them.
--
-- Urbs models what the Linux backend (linux.c) does with the URBs of a transfer that the kernel gives
-- back; the kernel's answers to cancelling are a parameter, and a transfer's completion is recorded.
-- Urbs.Courses and ShortTransfers are about whole courses of a transfer. Urbs.Splitting models how a
-- bulk or interrupt transfer is split into URBs and submitted; Pieces and Refusals are about it.
--
-- Library models the instances of the library (usb.c): `openusb_init`, `openusb_fini` and the list of
-- handles; Library.Events has the handles' settings and the queue of events, Library.Opening the
-- opening and closing of devices, and Library.Errors the texts of the codes. Library.Numbers,
-- Instances and Endings are about the numbers of the handles, and about opening and closing.
--
-- Run has the outcomes of C code and Proc functions with early returns. Integers are native natural
-- numbers, with the wrap-around of unsigned ones written out; return codes are signed (Codes).
--
-- Fuel bounds the rounds of the loops that C does not bound. The skipping loops have one more than
-- the block has bytes: each round passes two at least, and a run outside the block faults. The
-- walks of the queries have one more than the buffer has bytes, which is proved to be enough. The
-- loops over alternate settings take the fuel as a parameter, and the theorems ask for one round
-- on each descriptor. A loop over a list takes one round more than the list has entries, and the
-- loop of `openusb_wait` one more than there are completions counted, which is proved to be enough.
--
-- Threads are not interleaved inside a function: what other threads do while one waits is a
-- parameter. A counter of 32 bits is taken modulo 2^32.
--
-- Not modelled: the other backends and the rest of the Linux one (the submission of control and
-- isochronous transfers, the thread that polls, the calls of the system), the emulation of libusb 0.1,
-- multi requests, strings and the device data. The refreshing of descriptors is an operation that
-- `Interfaces` takes. Debug output is left out.
mod Prelude
pub mod Codes
pub mod Run
pub mod Proc
pub mod ParseData
pub mod Descriptors
pub mod Interfaces
pub mod Queries
pub mod Fetch
pub mod Timeouts
pub mod LinkedList
pub mod Transfers
pub mod Library
pub mod Devices
pub mod Urbs
mod Tests
