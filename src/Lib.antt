-- ===== src/Lib.antt =====
-- tinyState, a C++ framework of event-driven state machines. The library follows its parts as the
-- source does; paths are those of the repository.
--
-- Prelude: native numbers and integers, Boolean tests, lists.
--
-- Queue: src/h/ts2/c++/stdQueue.h, the linked priority queue under every other part. A queue is the
-- chain of cells that head reaches, each with the address that its allocation gave it, and tail is
-- an address, so the store through tail and the comparisons with it are modelled. Queue.Valid is the
-- invariant, Queue.Remove and Queue.Order say what removal and insertion do to the list of keys and
-- items, Queue.Move follows ins(q), the copying constructor, set_tail, reset and move, Queue.Sort the
-- merge sort (its fuel is the length of the chain, which bounds the depth of the recursion),
-- Queue.Near and Queue.Placed ins(ref, d, cmp), Queue.Recount that the other calls work alike whatever
-- count is, and Queue.Run whole histories of calls.
--
-- WaitQueue: class stdLimitSemaphoreWait of src/classes/ts2/c++/stdLimitSemaphore.cpp. A std::map is
-- the list of its pairs in ascending order, an unordered_set the list of its members.
-- WaitQueue.Agrees and WaitQueue.Refines relate it to the linked queue.
--
-- HalfOrder: src/classes/ts2/c++/stdHalfOrderQueue.cpp, a heap. A pointer to a node is a tree, since
-- nothing else points into it; a panic is none. HalfOrder.Shape has order, balance and contents,
-- HalfOrder.Insert the insertion, HalfOrder.Last and HalfOrder.Sift the two walks of the deletion and
-- HalfOrder.Delete the deletion.
--
-- StringTree: src/classes/ts2/c++/stdStringTree.cpp, a radix tree. Siblings that next links are a
-- list, and each node owns its list of children; a key is a list of bytes without the terminator.
-- StringTree.Keys has common prefixes, StringTree.Lookup, StringTree.Insert,
-- StringTree.Placed and StringTree.Delete the map that a list of nodes stands for and what ins and del do to it, StringTree.Longest the search
-- for the longest prefix, with StringTree.Best as its specification on the map, StringTree.History histories of calls.
--
-- Text: src/classes/ts2/c++/stdString.cpp, strings as lists of bytes. A read past the terminator, by a
-- loop or by memcpy, is none. Text.Percent is about the percent encoding, Text.Parts about copies and comparisons of parts.
--
-- QueueString: src/classes/ts2/c++/stdQueueString.cpp, on the queue of Queue. An element is a string
-- or null, patterns of filter are not empty. QueueString.Order is the order of strings,
-- QueueString.Sets the operations on sorted queues, QueueString.Faults is about filter and the
-- constructor from a queue.
--
-- Deferral: src/classes/ts2/c++/tsGC.cpp, the machine that delivers the events of calls that were nested
-- too deep, on the heap of HalfOrder. The nesting, its limits and the clock are arguments of a visit to
-- ACT_EXE. Deferral.Delivery is about histories.
--
-- Clock: now() of src/classes/ts2/c++/stdInterval.cpp, as the atomic steps of any number of threads.
-- The system clock is an argument of the calls.
--
-- Sync: the objects on which state machines wait for each other. A call runs under the mutex of the
-- application, so a history is a list of calls; a caller is the address of a tinyState; a call that
-- throws to stay in its state answers Outcome.stays, and the callers that are woken are a result.
-- Sync.Semaphore is src/classes/ts2/c++/stdSemaphore.cpp, Sync.LimitSemaphore stdLimitSemaphore.cpp
-- beside it and Sync.Mutex stdMutex.cpp. Their System modules put the object among its callers.
-- Sync.Drain is the loop of their destructors, with one round more of fuel than the queue is long.
--
-- Collector: src/classes/ts2/c++/stdObject.cpp, the counts of references and the tree of buckets through
-- which objects without a reference reach the thread that deletes them. An action is a critical section;
-- the calls of relref that go up the tree and the stack of the collector are part of the state, and so
-- are, as a ghost, the references that the program holds. A list that next links is a list, since an
-- object is armed once. Collector.Counts, Collector.Keeps and Collector.Steps are about the counts, Collector.Reports and
-- Collector.Sweeps
-- about who knows of the work in a bucket, Collector.Bounds about the indexes, Collector.History about
-- histories. finish, wait_stable and the condition variable are not modelled.
--
-- RecursiveMutex: src/classes/ts2/c++/sThreadMutexRecursive.cpp, the mutex of the application and of a
-- machine. The recursive mutex of pthreads is a parameter, a record of its calls and of what its
-- documentation says of them. A call is one step: the reads of count outside of the mutex are not
-- interleaved. RecursiveMutex.Levels and RecursiveMutex.Refines compare histories of calls with a thread and its
-- levels.
--
-- Machine: the kernel, src/classes/ts2/c++/tinyState.cpp. Machine has the private state of a machine
-- and what is done to it under its lock lm: _insEvent, _delEvent, invoke_check, the two ends of
-- eventHandler, destroy. Machine.Once is about the masks of only-one events. Machine.Dispatch is
-- eventHandler for any derived class: a state function sees the machine and says what it returns or
-- throws, what reached the machine while it ran with lm released, and whether it was
-- ZOM_TINYSTATE_LAST2. Fuel bounds the rounds for one event and the events of one dispatch;
-- Dispatch.Ends and Dispatch.Total give enough of it for classes that descend. Dispatch.Life starts
-- machines as inherit does and makes histories of calls. Machine.Base has the state functions of the
-- class tinyState itself. The escape of deep nesting to tsGC is not modelled, and
-- invoke_state gives the types of the events that it sends.
--
-- Listeners: listen, add_listener, remove_listener, remove_handle and invoke_listen of
-- tinyState.cpp and remove of src/classes/ts2/c++/stdEventHandle.cpp, on a store of machines and
-- handles. Listeners.Linked is the invariant of the two ends of a registration, Listeners.Removal,
-- Listeners.Popped and Listeners.Death are about the ways to take a handle out, Listeners.Removed about
-- handles that were removed, Listeners.Gone and Listeners.Silent about what a dead machine leaves, and
-- Listeners.History makes histories. A death is the cleanup of ZOM_TINYSTATE_LAST2 and the later store
-- of ZOM by invoke_check; the histories of moves have the two as steps, between which another machine
-- can still register, those of Listeners.Silent have them as one. The
-- clearFlag of invoke_listen and the handlers are not modelled.
--
-- The key of a waiter, me->priority(thNULL), is an argument: any class may override it. Counts are
-- integers that do not wrap, as in a run of fewer than 2^31 calls. The threads
-- themselves are not modelled.
pub mod Prelude
pub mod Queue
pub mod WaitQueue
pub mod Sync
pub mod Machine
pub mod HalfOrder
pub mod Clock
pub mod Listeners
pub mod Text
pub mod Collector
pub mod RecursiveMutex
pub mod Deferral
pub mod StringTree
pub mod QueueString
mod Examples
