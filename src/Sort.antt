-- ===== src/Sort.antt =====
-- src/abs_sort.c: sorting in place, and binary search.
pub mod Defs
pub mod Rearranging
pub mod Exchanging
pub mod Shifting
pub mod Inserting
pub mod Heap
pub mod Quick
pub mod Searching
pub mod Ordering
pub mod Bubble
pub mod Selection
pub mod Insertion
pub mod Shell
pub mod Moving
pub mod Partition
pub mod Quicksort
pub mod Heaping
pub mod Heapsort
