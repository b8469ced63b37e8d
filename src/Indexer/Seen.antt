-- ===== src/Indexer/Seen.antt =====
-- What the memory of seen events remembers (agentix/packages/indexer/dedup/index.ts).
