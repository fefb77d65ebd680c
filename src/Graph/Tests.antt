-- ===== src/Graph/Tests.antt =====
-- The theorems on graph, applied to a store of ten buckets.
mod Keys
mod Store
mod Query
