-- ===== src/Lib.antt =====
-- Verification of cppgenerics, a C++ library of Linux helpers: shared-memory buffers between
-- processes with their mutexes and allocator, wrappers of system calls, signals and netlink events.
--
-- The parts and their files (paths from the repository's root):
--
-- Prelude: numbers, tests, lists, arrays as functions. Bits: the bits of a number.
--
-- BitBuffer (include/cppgenerics/BitBuffer.h, src/BitBuffer.cpp): the free map. BitBuffer.antt has
-- getSizeBytes, the constructor, init, get, set and find, each as a function with a result that
-- may be the exception or undefined behaviour. The code shifts the int 1 by up to 63; C++ defines
-- these shifts below 32 alone, so the model has them undefined from there, and most theorems are
-- about plain indices, whose bit lies below bit 31 of its unit. find's loop runs at most once for
-- each element. GetSet, Init and Find prove what these do. BitBuffer/Copies.antt has copies, moves,
-- assignment and destruction over a heap in which a read or a delete of freed memory is a fault.
--
-- Allocator (include/cppgenerics/IPC_Allocator.h): allocate, deallocate and operator== over the model
-- buffer; a pointer is an offset. Allocator/Construct.antt has the constructor over the BufferManager's
-- two buffers, and Allocator/Attach.antt is about its end, over a model that exists. Their theorems
-- are about models of at most 31 elements, for the reason above.
--
-- Mutex (include/cppgenerics/IPC_Mutex.h, src/IPC_Mutex.cpp): lock and unlock of n threads as a step
-- relation over the futex word, each atomic access a step, and an interrupted FUTEX_WAIT, which makes
-- lock throw.
--
-- Buffers (include/cppgenerics/IPC_Buffer.h, src/IPC_BufferManager.cpp): Buffers/Descriptors.antt has
-- the shared descriptor table with its two linked lists, write by write; Buffers/Linked.antt says
-- when it is well linked, and Init, Take, Release, Walk and HeadRelease prove what initDescriptors,
-- getFreeDescriptor, putFreeDescriptor and getDescriptor do to it; Buffers/Lost.antt has the lists
-- behind a release, since putFreeDescriptor does not make the descriptor the first free one where
-- another one is free. Buffers/Manager.antt has the BufferManager's and the Buffer's other members in
-- a state monad with exceptions. The operations run under m_mtx, so they are sequential; System V
-- shared memory and the random numbers are the parameter Os. The walk of getDescriptor has no bound in the source: it runs on fuel, and fuel
-- above the capacity is enough in a well-linked table. allocShmKey draws until a key is free, on
-- fuel too. BufferManager allocates with capacity 1000; the theorems hold for any capacity.
--
-- Buffers/Registry.antt is the abstract view of the table, a list of ids with their descriptors, and
-- Registry/Refine.antt relates the two over sequences of calls; Registry/Lost.antt is about the
-- descriptors that a release loses. Buffers/Sharing.antt counts the Buffer objects of each descriptor
-- through calls of getBuffer, copies and destructions (Agreement.antt, Created.antt, Counted.antt).
--
-- KeyFile (src/FileLock.cpp, src/IPC_FileMutex.cpp, src/IPC_BufferManager.cpp): how processes find one
-- segment through a file with its key. KeyFile.antt has the file, its lock and the segments in a
-- monad with exceptions whose destructors run at the end of a scope; KeyFile/Mutex.antt has
-- FileMutex, KeyFile/Manager.antt init and initPointers of BufferManager, and KeyFile/Stop.antt its
-- destructor. Processes start one after the other, since the lock makes them wait. allocShmKey draws
-- on fuel, as above. KeyFile/Raced.antt is about two threads of one process, which the lock of the file
-- does not keep apart.
--
-- Exception (include/cppgenerics/Exception.h): the objects, whose streams write to a buffer by its
-- address, and the macros that throw a copy; Exception/Thrown.antt is about what a handler reads.
--
-- Logger (include/cppgenerics/Logger.h, src/Logger.cpp): which stream a message goes to, after the calls
-- that the macros make.
--
-- Container (include/cppgenerics/IPC_Container.h): its iterators and operator[] over a Buffer, as addresses
-- of elements, and its constructor. A loop over it runs on fuel; fuel above the number of elements is
-- enough.
--
-- ProgressBar (include/cppgenerics/ProgressBar.h, src/ProgressBar.cpp): the characters that redraw and its
-- callers write, with the floating-point results as parameters; ProgressBar/Screens.antt and its siblings say
-- what a terminal shows of them.
--
-- MutexManager (include/cppgenerics/IPC_MutexManager.h, src/IPC_MutexManager.cpp): the table of named
-- mutexes that getMutex searches and extends, for any capacity (1000 in the source). MutexManager/Get.antt
-- proves what one getMutex does; MutexManager/Names.antt has the abstract view, a list of names.
--
-- Syscalls (include/cppgenerics/Syscalls.h, src/Syscalls.cpp): Syscalls.antt has read, write,
-- readExact, writeExact, readExact_nt and writeExact_nt over a kernel that is a parameter, ::read and ::write as
-- functions of a state. The loops run on fuel; fuel above the number of bytes is enough where a
-- successful call takes at least one byte. Dirs has mkdir_p, whose fuel is enough above the distance to
-- an ancestor that is a directory; Sched has resched; Module has initModule; Wrappers has the functions
-- that call one system function, from its result; Clock has nanoSleep, getCurUsecs and timeStr, over
-- doubles whose operations are a parameter with the laws of IEEE 754 for whole numbers below 2^53.
--
-- SignalHandler (include/cppgenerics/SignalHandler.h, src/SignalHandler.cpp): _init, addSignal and
-- rmSignal as functions of what one thread sees: the signal table, its handlers and its signal mask.
-- SignalHandler/Threads.antt has them as steps of several threads in every interleaving, with the
-- constructor and the destructor; Invariant, Steps and Kept carry an invariant through the steps, Safety
-- draws the consequences, and Turn relates the steps of one call to the functions. A thread uses
-- the SignalHandlers that it constructed itself, and does nothing more once it has done something
-- undefined. SIGKILL and SIGSTOP, which no process blocks, are no signals of the model.
--
-- NetLink (include/cppgenerics/NetLinkListener.h, src/NetLinkListener.cpp): the list of callbacks,
-- what one message calls, and the loop over what recvmsg returns; there a message is its type and its
-- attributes. NetLink/Attributes.antt has parseRtattr over the bytes of the receive buffer, with the
-- macros RTA_OK and RTA_NEXT as parameters; its loop runs on fuel, and fuel above the length is
-- enough. NetLink/Stale.antt is about what lies behind a message, and NetLink/Life.antt about the thread
-- and its socket beside the destructor, as steps of the two. The addresses are not modelled.
--
-- Singleton: getInstance of BufferManager, MutexManager, NetLinkListener and Logger.
--
-- Not modelled: the text of the Logger's messages; the observer interfaces, which declare no code;
-- and the parts that are named above as left out. A size_t or an int wraps where the
-- code's type does, but for counters that the theorems bound.
pub mod Prelude
pub mod Bits
pub mod BitBuffer
pub mod Allocator
pub mod Mutex
pub mod Buffers
pub mod Syscalls
pub mod MutexManager
pub mod SignalHandler
pub mod NetLink
pub mod Logger
pub mod KeyFile
pub mod ProgressBar
pub mod Container
pub mod Singleton
pub mod Exception
