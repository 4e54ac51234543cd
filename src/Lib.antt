-- ===== src/Lib.antt =====
-- codelab is a collection of small C and C++ programs that do not call one another: concurrent
-- and memory-managing classes in the folder idea, searches in algo, and experiments. What is
-- shared is their purpose: handing out objects and taking them back, counting who holds them, and
-- passing items between threads. Each module models one of them. A class is a record of its
-- state, a method a function of the state, and code that threads run at the same time is a
-- relation with one constructor for each access to shared memory or each critical section.
-- Addresses, indices and keys are natural numbers, 0 the null pointer; what reads freed memory,
-- or out of bounds, or drops below zero what must not, is `none`; where a loop is given a number
-- of rounds, running out of them is told apart from what the loop can return. In the queues a
-- thread that reads a deleted node goes `astray`.
--
-- * Base, with Base/Tests, Outcomes, Lists, Int, Bits, Bag: numbers, tests, lists by index,
--   signed integers, bit masks, and how often a number is in a list.
-- * SocketPool models idea/socket_pool.cpp: GetSocket is get_socket with its search (search_pool)
--   and creation (create), ReturnSocket is return_socket. Count has the invariant on pool_count,
--   which is an int that wraps around, and Reuse is about the exhausted pool. connect and the
--   other system calls are arguments.
-- * SharedCount models idea/smart_pointer/sp_counted_impl.hpp and shared_count.hpp: Counted is
--   sp_counted_base, and the operations of shared_count and weak_count are those on handles.
--   Balance says when counts and handles agree, Handles and Clients that operations keep this,
--   Sound, WeakSound and Safety put them together, Lock is about the conversion of a weak handle.
--   Counters wrap at 2^32, and the theorems bound the number of handles below that.
-- * SharedPtr models idea/smart_pointer/shared_ptr.hpp, weak_ptr.hpp and
--   enable_shared_from_this.hpp on SharedCount: Clients are programs with such pointers, Counted,
--   Sound, WeakSound and Safety show what they keep, Expired is about the way from a weak pointer
--   to a shared one. swap and expired, which nothing declares, are arguments.
-- * OwningPtr models idea/smart_pointer/auto_ptr.hpp and unique_ptr.hpp, with Owners for histories of calls of a client
--   that gives no object two owners.
-- * CircularQueue models idea/circular_queue.h: Refine against a list, with Rotation, Init for
--   the capacity check, Threads for one producer and one consumer, interleaved.
-- * Lockfree models idea/lockfree: TagPtr is tag_ptr.h, and Stack has stack-normal.hpp (the
--   parent and Mutex), stack-atomic.hpp (Plain) and stack-atomic-version.hpp (Tagged), with
--   Chains for the links of nodes. Memory orders are not distinguished. The tag has 16 bits, so
--   that a thread is not overtaken by 2^16 pops is a premise of its compare-exchange. Queue has
--   queue-lockfree-has-aba.hpp in the same way, with Sound and Link for its steps, Order for the
--   links and what comes out, Null for a pop that a push overtakes, and Deleted for one that
--   reads a deleted node. Helpless is queue-nolockfree.hpp, on the same state, with Settled and
--   Blocked for a thread that stops before it moves the tail.
-- * TimerThread models idea/timer_thread.h and timer_thread.cpp: ids and buckets in the parent
--   and Ids, one task against unschedule in Lifecycle, the loop of run in Sleep, with Deadline.
-- * ResourcePool models idea/resource_pool_inl.h: get and return_resource are those of LocalPool,
--   fetch_block, pop_free_chunk and push_free_chunk those of the pool. Count, Get and Pools are
--   about threads that each keep a LocalPool, which is what get_or_new_local_pool means, Fresh
--   about get_resource and return_resource of the class, which do not. The loop of fetch_block
--   makes two rounds at most and needs no fuel.
-- * LruCache models idea/lru_cache.cpp under its names. Sound has the invariant with Ref and
--   Unref, Remove is Erase and the loop of Insert, Released the rest of Insert, which writes
--   through the pointer that it has released, Destroy the destructor. The loop of Insert is given
--   one more round than there are idle handles; each round frees one.
-- * DoublyBuffered models idea/doubly_buffered_data.h as a step relation: Safety is about the
--   copies that readers have, Copies about what the two copies hold; Writers has a relation with
--   any number of threads in Modify.
-- * ThreadPool models idea/thread_pool.cpp as a step relation: Tasks is about the order of tasks,
--   Wakeups about the waiting workers.
-- * SkipList models idea/skiplist.h: Lookup is about what Contains finds, Room about the memory
--   of a node, Levels about a level as a list, Search about the prev of the search, Insertion,
--   Layers and Refine about Insert, Histories about calls of Insert on a new list. A round of the
--   search goes on to a later node or down a level, and is one of as many as all levels have
--   nodes, and one more for each level.
-- * SingleThreadedPool models idea/single_threaded_pool.h: get, back and reset are get_node,
--   give_back and reset_pool, and Unusable is about any history of calls.
-- * Sorting models the sorts of algo: quicksort.c in Quick, quickselect.c in Select, partition.c
--   in Partition, merge_sort.c in Merge, each under its names. An array is a length and a
--   function of the index. Moves says that an array is another one rearranged, Totals counts
--   entries by weights, and Agreement compares two sorts. Loops and calls are given as many
--   rounds as the interval is long, or more; each round shortens it.
-- * Search models bsearch of algo/binsearch.c and lower_bound of algo/lower_bound.c, with one
--   more round for both loops than the array is long; each round shortens the interval.
--
-- Not modelled: the queues of idea/lockfree with tagged pointers, which are variants of the one
-- modelled; atomic (litmus programs, and a copy of the circular queue); libevent (calls of that
-- library); protobuf (generated code); go (another language).
pub mod Base
pub mod CircularQueue
pub mod DoublyBuffered
pub mod Lockfree
pub mod LruCache
pub mod OwningPtr
pub mod ResourcePool
pub mod Search
pub mod SharedCount
pub mod SharedPtr
pub mod SingleThreadedPool
pub mod SkipList
pub mod SocketPool
pub mod Sorting
pub mod ThreadPool
pub mod TimerThread
