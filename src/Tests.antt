-- ===== src/Tests.antt =====
-- Runs of the model on a small map with three players.
mod Fixtures
mod Boards
mod Clocks
mod Commands
mod Lives
mod Observers
mod Sockets
mod Frames
mod Clients
mod Settings
