-- ===== src/Reconciler.antt =====
-- extras/citadel_interview/main.cpp: eight classes that reconcile three feeds of executions in a
-- time window, and the benchmark that runs them. A child models each class, and `Agreement` says
-- that they raise the same alerts.
pub mod Common
pub mod IdMap
pub mod UnorderedScan
pub mod Interface
pub mod VectorScan
pub mod ExpiryHeap
pub mod UnorderedHeap
pub mod UnorderedHeapReserved
pub mod Calls
pub mod DirectIndex
pub mod DirectIndexHeap
pub mod DirectIndexWheel
pub mod FlatHash
pub mod FlatHashHeap
pub mod FlatHashWheel
pub mod Bench
pub mod Verdict
mod Tests
