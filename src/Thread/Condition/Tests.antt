-- ===== src/Thread/Condition/Tests.antt =====
-- A deadline past the end of the second.
