-- ===== src/Store.antt =====
-- The tables of internal/database/mailbox_privacy.go, as lists of rows in insertion order, with the
-- `Database` fields that their quotas use. A statement is a function on the lists: `WHERE` is `keep`,
-- `COUNT(*)` is `length`, `SUM(length(payload))` is `sum_by`. Statements are taken to succeed unless a
-- key constraint forbids them. A transaction that is rolled back leaves the store as it was, so an
-- operation under a transaction gives a new store only when it commits. Times are Unix seconds, one
-- reading of the clock for each operation.
pub mod Schema
pub mod Held
pub mod Outbox
pub mod Routes
