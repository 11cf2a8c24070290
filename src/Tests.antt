-- ===== src/Tests.antt =====
-- Test data, small runs of the model, and the theorems applied to them.
mod Data
mod Main
mod Metrics
mod Validator
mod Postgres
mod Http
mod App
mod Service
mod Window
mod Text
mod Fraud
mod Ingest
mod Kafka
mod Stoplist
