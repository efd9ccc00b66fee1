-- ===== src/ParallelPartitioning/Shared.antt =====
-- Two neighbouring threads that both move the elements of one equality bucket.
