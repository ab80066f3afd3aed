-- ===== src/Discovery/Tests.antt =====
-- The theorems about the Discovery service at a concrete registry.
