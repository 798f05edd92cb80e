-- ===== src/Game/Incantation/Payment.antt =====
-- What the start of an incantation takes from the tile.
