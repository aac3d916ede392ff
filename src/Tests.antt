-- ===== src/Tests.antt =====
-- The theorems at concrete inputs, most of them at the layouts `SnowflakeTwitterId` and `ULID`, and
-- runs of the code on inputs of the repository's own tests.
mod Ids
mod Snowflakes
mod Threads
mod Ulids
mod Text
mod Servers
mod Workers
mod Database
mod Datums
mod Pool
mod Streams
mod Tasks
mod Clocks
mod Async
mod UlidThreads
mod Forms
mod Times
mod Traits
