-- ===== src/Game/Moves/Step.antt =====
-- `avance` on the map with its lists.
