-- ===== src/Lib.antt =====
-- Verification of BromiumCoreUtils, a library of Objective-C classes and C functions for dispatch
-- queues, retries, timers, files and safe arithmetic.
--
-- Parts and files. Each file models the source file of the same name with BRU in front.
--   Arithmetic             BromiumCoreUtils/BRUArithmetic.h: `bru_size_add_2` is `size_add_2`, and so on.
--                          Arithmetic/Builtins has what the compiler provides, Arithmetic/Floating
--                          the conversions from float and double.
--   MemoryRegion           BromiumCoreUtils/BRUMemoryRegion.h and .m, over Arithmetic.
--   ConcurrentBox          BromiumCoreUtils/BRUConcurrentBox.m: `turn` is a method between taking the
--                          lock and giving it up; ConcurrentBox/Threads has the threads around it.
--   ConcurrentVariable     BromiumCoreUtils/BRUConcurrentVariable.m.
--   Deferred               BromiumCoreUtils/BRUDeferred.m; Deferred/System adds the completion queue.
--   EitherErrorOrSuccess   BromiumCoreUtils/BRUEitherErrorOrSuccess.m and its category in
--                          BromiumCoreUtils/BRUConcurrentBox.m.
--   RateLimiter            BromiumCoreUtils/BRURateLimiter.m, over ConcurrentBox.
--   ResourceCleanup        BromiumCoreUtils/BRUResourceCleanup.m.
--   Retry                  BromiumCoreUtils/BRURetry.m: one operation for each block on `syncQueue`;
--                          Retry/System has the action, the policy and the timer around the object,
--                          Retry/Promise the deferred of an operation.
--   Timer                  BromiumCoreUtils/BRUTimer.m: one job for each block that is dispatched.
--   FileMonitor            BromiumCoreUtils/BRUFileMonitor.m: what lstat and open give is an argument;
--                          FileMonitor/Descriptors follows the descriptors over a history.
--   Task                   BromiumCoreUtils/BRUTask.m: the parent's part of a launch and of the exit of the
--                          child; Task/Launching has the descriptors, Task/Lifecycle the waiting thread,
--                          Task/Signals the calls of kill. Task/Child is the child up to execve, over an
--                          interface to POSIX, and Task/Child/Answers puts the two processes together;
--                          Task/Arguments has the arguments and the environment as C arrays.
--   TemporaryFiles         BromiumCoreUtils/BRUTemporaryFiles.m; TemporaryFiles/Convenience has the
--                          methods with fewer parameters.
--   DispatchUtils          BromiumCoreUtils/BRUDispatchUtils.h, over an interface to libdispatch.
--   EqualityUtils          BromiumCoreUtils/BRUEqualityUtils.h, over an interface to IEEE 754;
--                          EqualityUtils/Delays puts it together with Retry.
--   NullabilityUtils       BromiumCoreUtils/BRUNullabilityUtils.h, with the out-parameters of
--                          BromiumCoreUtils/BRUBaseDefines.h.
--   Asserts                BromiumCoreUtils/BRUAsserts.h and .m, in both builds.
--   SetDiffFormatter       BromiumCoreUtils/BRUSetDiffFormatter.m, over lists of UTF-16 units.
--   InternalMaybeDdLog     BromiumCoreUtils/BRUInternalMaybeDDLog.m, over an interface to the runtime.
-- The files named Contract (and Cgfloat and Creation) have a predicate for each documented promise of
-- a header; the files named Documented have the proofs that the code keeps them.
--   Prelude                shared names, lists, integers, and Outcome for code that may fail an
--                          assertion.
-- The files named Examples apply the theorems to concrete objects.
--
-- How it is modelled. A serial queue runs one block at a time, so an operation is a function from
-- the object to the object and what it sends elsewhere; the order in which blocks and threads run is
-- any order, given as steps of a relation. An assertion that fails ends the program (`fatal`). A nil
-- that the code allows is `none`. Out-parameters are returned, with their old content as an
-- argument where the code may leave it alone.
--
-- Bounds. Integers have the widths of a 64-bit target: size_t, unsigned long and NSUInteger have 64
-- bits, unsigned int 32. Counters of type NSUInteger wrap at 2^64, and theorems that need it assume
-- that they do not reach it. `Retry.Attempts.attempts` has fuel for the attempts of an operation;
-- fuel above the number of retries is enough, because the policy stops at that attempt or before.
-- `Retry.Contract.operation`, which may go on for ever under other policies, says itself whether its
-- fuel was enough. In the child of a task the loop that closes descriptors has as many rounds as
-- there are numbers from 3 to getdtablesize().
--
-- Not modelled: time and dates (but Timer/Modes has the times at which a timer fires); the text of
-- messages; in the classes the assertions that code runs on a given queue (DispatchUtils has these
-- by themselves); reference counting (but Retry/Promise has
-- the deallocation of the object), and with it the macros of BromiumCoreUtils/BRUARCUtils.h; and
-- the text that the methods named description make.
pub mod Prelude
pub mod Arithmetic
pub mod Asserts
pub mod ConcurrentBox
pub mod ConcurrentVariable
pub mod Deferred
pub mod DispatchUtils
pub mod EitherErrorOrSuccess
pub mod EqualityUtils
pub mod FileMonitor
pub mod InternalMaybeDdLog
pub mod MemoryRegion
pub mod NullabilityUtils
pub mod RateLimiter
pub mod ResourceCleanup
pub mod Retry
pub mod SetDiffFormatter
pub mod Task
pub mod TemporaryFiles
pub mod Timer
