-- ===== src/Tests/Observers.antt =====
-- The theorems on the JSON view, at the world with three players.
