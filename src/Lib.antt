-- ===== src/Lib.antt =====
-- Ps4o, a parallel in-place sample sort with an oracle array, in C++ templates under include/ps4o.
--
-- `ps4o::sort` (include/ps4o/ps4o.hpp) first looks for presorted input and sorts a small range by
-- insertion. Any other range is partitioned, recursively: a random sample is drawn and sorted, splitters
-- are chosen from it, a classifier is built from the splitters, the elements are classified into an
-- oracle of bucket numbers, and distributed by the oracle from one array to another, bucket by bucket.
-- The two arrays change their roles from level to level; a bucket that is small enough is sorted and
-- moved to the array that the caller sees.
--
-- * BaseCase, include/ps4o/base_case.hpp: `insertion_sort` is insertionSort, `base_case_sort` is
--   baseCaseSort, `sorted_case_sort` is sortedCaseSort, `is_sorted` the parallel isSorted.
--   The flags of its threads are packed in words, `Access` is a load or a store of such a word, and a
--   list of them the order in which the threads get at the words.
-- * Config, include/ps4o/config.hpp and include/ps4o/utils.hpp: the template parameters as a record, the
--   thresholds, `log2`, `oversampling_factor`, `log_buckets` and `num_threads_for`.
-- * Classifier, include/ps4o/classifier.hpp: the record holds the two storages as cells that are live or
--   not; `build`, `cleanup` and `reset`; `classify` of an element; `classify_range`, the loop that
--   is unrolled, which takes a block of elements through the tree level by level.
-- * LocalClassification, include/ps4o/local_classification.hpp: `classify_locally` is classifyLocally,
--   `sequential_classification` is sequentialClassification, `find_boundaries` its second half.
-- * Memory, include/ps4o/memory.hpp: `LocalData`, what a sorting thread owns, and the two arrays.
-- * Sampling, include/ps4o/sampling.hpp: `select_sample` is selectSample, `build_classifier` is
--   buildClassifier, with `choose_splitters` and `pad_splitters` for its loops.
-- * Partitioning, include/ps4o/partitioning.hpp: `distribute_elements` is distributeElements, `partition`
--   the main partitioning function in the sequential case.
-- * Sequential, include/ps4o/sequential.hpp and include/ps4o/ps4o.hpp: `sequential` is the recursion,
--   `sequential_sorter` a call of SequentialSorter, `sort` is `ps4o::sort`.
-- * ParallelClassification, include/ps4o/local_classification.hpp: `classify_stripe` is what a thread does
--   in parallelClassification before the first barrier, `scan` what the first thread does after it.
-- * Scheduler, include/ps4o/scheduler.hpp: `PrivateQueue`, a vector with an offset, and its operations.
-- * Parallel, include/ps4o/parallel.hpp, include/ps4o/task.hpp: `queue_tasks` is queueTasks, on the part
--   of SharedData that it changes; Sequential.Tasks, the version of `sequential` for a task.
-- * Synchronization, include/ps4o/synchronization.hpp: `arrive` is barrier, `enter_single` and
--   `leave_single` are single before and after the call of its function; `Step` interleaves threads.
-- * JobScheduler, include/ps4o/scheduler.hpp: `Step` interleaves threads that run getJob and offerJob of
--   Scheduler, on a shared queue that is a parameter.
-- * ThreadPool, include/ps4o/thread_pool.hpp: `Step` interleaves the caller and the threads of
--   StdThreadPool, or those that join a ThreadJoiningThreadPool.
-- * Alignment and AlignedPtr, include/ps4o/memory.hpp: `align_pointer` is alignPointer; `act` is what
--   constructors, assignments and destructors of the owning pointers do to the allocations and to the
--   objects in them.
-- * ParallelPartitioning, include/ps4o/partitioning.hpp: `thread_parts` is what a thread does to the
--   buckets between the last two barriers of `partition`, `work_threads` all threads in turn; `distribute_threads` is
--   distributeElements on their stripes before.
-- * ParallelSorter, include/ps4o/parallel.hpp and include/ps4o/ps4o.hpp: `sorter_way` is the call operator
--   of ParallelSorter up to the parallel algorithm, `pool_way` and `threads_way` are `ps4o::parallel::sort`.
-- * Base has the shared helpers: lists, raw storage, options, orders. Examples applies the theorems to
--   small inputs.
--
-- A range is a list, an array of raw storage a list of cells, each with a live object or none; a read of
-- a cell with no live object, an access out of range and a violated PS4O_ASSUME_NOT give `none`, so that
-- a theorem that a routine yields a result says that it has no such fault. A `std::ptrdiff_t` is a
-- natural number; the truncation of a bucket to the `unsigned char` of the oracle is written out. The
-- comparator is any function to Bool, a strict weak ordering where a theorem says so. The random
-- generator and `std::uniform_int_distribution` on it are a parameter: a draw stays in its range.
--
-- Loops are recursive on the number of rounds, or on fuel: `classify_loop` gets one unit more than there
-- are elements, each round takes at least one; `build_tree` gets as many units as the tree has
-- levels; `for_buckets`, `queue_loop` and `emplace_loop` get no fewer than there are buckets. The fuel of `sequential` bounds the depth of
-- the recursion; `sequential_sorter` gives it as many units as there are elements.
--
-- Not modelled: the OpenMP pool of thread_pool.hpp, `critical` in synchronization.hpp,
-- the loops over big and small tasks in parallel.hpp, the copy of IPS4o under ips4o, and the example program.
pub mod AlignedPtr
pub mod Alignment
pub mod Base
pub mod BaseCase
pub mod Classifier
pub mod Config
mod Examples
pub mod JobScheduler
pub mod LocalClassification
pub mod Memory
pub mod Parallel
pub mod ParallelClassification
pub mod ParallelPartitioning
pub mod ParallelSorter
pub mod Partitioning
pub mod Sampling
pub mod Scheduler
pub mod Sequential
pub mod Synchronization
pub mod ThreadPool
