-- ===== src/Lobby.antt =====
-- internal/lobby: the command line of the lobby.
pub mod Trie
pub mod Abbrev
pub mod Pruning
pub mod Roles
pub mod Open
pub mod Scope
