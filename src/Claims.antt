-- ===== src/Claims.antt =====
-- packages/core/src/persistence.ts (`ClaimStore`): the authoritative lock that a run takes on a
-- work item. `Contract` states the port as operations and laws, `Sqlite` and `Memory` are the two
-- adapters of packages/persistence, and `Exclusive` is what a client of the port may rely on.
pub mod Contract
pub mod Sqlite
pub mod Memory
pub mod Exclusive
mod Examples
