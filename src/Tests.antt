-- ===== src/Tests.antt =====
-- Small worlds for the client of api/client.rs, and the theorems at concrete inputs.
mod World
mod Walks
mod Calls
mod Transactions
mod Orders
mod Indexes
mod Logs
mod Requests
mod Stores
