-- ===== src/Services/Dataset/Undo.antt =====
-- dataset_service_impl.go: what `CreateDataset` leaves in the tables and in the bucket.
pub mod Stores
pub mod Cleanup
pub mod Failure
pub mod Success
mod Tests
