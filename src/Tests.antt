-- ===== src/Tests.antt =====
-- Examples on concrete inputs, one file for each part of the library.
mod Caches
mod Tries
mod Queries
mod Sorts
mod Configs
mod Listening
mod Buffers
mod Pooling
mod Pools
mod Reloads
mod Routes
mod Packets
mod Rules
mod Groups
mod Socks
