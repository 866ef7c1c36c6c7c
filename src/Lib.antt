-- ===== src/Lib.antt =====
-- libsysve: the user-side library of the Vector Engine (VE), modelled and verified.
--
-- A VE program runs on an accelerator card; its system calls are served on the Vector Host (VH).
-- src/accelerated_io.c replaces the eight read and write calls of the C library: a request is cut
-- into chunks of 4 MB, the VH reads into (or writes from) a buffer of its own, and the VE's DMA engine
-- moves the chunk between that buffer and one in VE memory, two chunks at a time.
--
-- src/libvhcall.c calls functions on the VH: it keeps an argument list in order and packs it in a
-- buffer. src/libveaio.c starts reads and writes that the VH completes later, one for each context.
-- src/vedma_main.S keeps the ring of DMA descriptors that all threads of a process share.
--
-- The model follows the source function by function, with state passed explicitly.
--   Prelude        shared names, Boolean tests, C arrays as functions of an index, signed results
--   Acc/Vh         constants, requests and __ve_find_min_posted of src/accelerated_io.c
--   Acc/Control    loop control (`break`) and the number of rounds
--   Acc/Engine     the states of the DMA engine that posts and waits lead to
--   Acc/Windows    the effect of a DMA transfer on the buffers, by the addresses it is posted with
--   Acc/Watch      an engine that notes which transfers are under way
--   Acc/Slots      the two buffer slots and which chunks may be under way in them
--   Acc/Read       ve_accelerated_io_read_pread and ve_accelerated_io_readv_preadv
--   Acc/Write      ve_accelerated_io_write_pwrite and ve_accelerated_io_writev_pwritev: a loop that
--                  stands twice in the source is one definition
--   Acc/Buffer     the moving user buffer of read and write
--   Acc/Iov        the iovec loops of readv and writev, and what they do to the bytes in their order
--   Acc/Process    the state of a process and a thread, and what the file calls
--   Acc/Resources  ve_accelerated_io_pre and _post, the list of all threads' buffers, the fork handlers
--   Acc/Threads    all threads of a process, in any order of their steps, and forks
--   Acc/Entry      the four functions from the hook to the return, and ve_accelerated_io_init; what they
--                  do to a file
--   Vhcall         the argument lists of src/libvhcall.c and the buffer of vhcall_invoke_with_args
--   Aio            the contexts of src/libveaio.c, and their life between the user and the VH
--   Dma            ve_dma_init and ve_dma_wait of src/vedma_init.c
--   Dma/Ring       the DMA descriptors of src/vedma_main.S, with all the threads and the engine
--   Memcpy         __libsysve_vec_memcpy of src/libsysve_vec_memcpy.S
--   Sysve          the functions that are one system call: src/libsysve.c, src/libveshm.c, src/libvedma.c,
--                  src/libvhshm.c, src/libvecr.c, src/libuserdma.c, and of src/libvhcall.c
--   Tests          runs at concrete inputs
--
-- Parameters. The VH's system calls and the constants that name them, the C library (malloc, calloc,
-- getenv, getpid), the DMA engine and thread-local storage are given to the model. The model of
-- src/accelerated_io.c takes ve_dma_post and ve_dma_wait as parameters too; Dma/Ring is what stands
-- behind them. For all threads together, malloc gives no block that is in use. A transfer may move its
-- bytes when it is posted or as late as the wait; both are allowed at each post. It copies
-- from the addresses and of the size that it was posted with: the four buffers are windows of 4 MB in the
-- VE host virtual space, and the two regions that hold them do not overlap.
--
-- Bounds. The transfer loops run over the number of rounds, the C loop's own bound, so they have no fuel;
-- the walk over a list of buffers takes one round for each node and one more, and the walk over an
-- argument list two rounds more than the number of arguments. The wait
-- for a transfer has fuel, and returns as soon as the engine's answer is not -EAGAIN. `size_t`
-- arithmetic wraps where the source's can (the number of rounds); sizes and addresses are otherwise
-- natural numbers. `int i` and the `ssize_t` sums of the transfer functions are natural numbers too, so what
-- is said of a transfer's data is said for sizes below 2^52, at which the rounds fit an int.
--
-- Not modelled: src/libsysve_atomic.s, one instruction that is one step where it is used; the spinning on
-- the lock of src/vedma_main.S, whose calls are one step each, and its fences; src/rodata.s, which is
-- data; cancellation points; the failures of
-- pthread_mutex_lock and pthread_mutex_unlock on the mutex of src/vedma_init.c, which such a mutex does not
-- have; a NULL argument list, for which the setters of src/libvhcall.c give EINVAL; and the examples.
pub mod Prelude
pub mod Acc
pub mod Vhcall
pub mod Aio
pub mod Dma
pub mod Sysve
pub mod Memcpy
pub mod Tests
