-- ===== src/Payload.antt =====
-- The JSON snapshot of a plan: `serialize_plan`, `deserialize_plan` and `deserialize_allocations` of
-- src/planner/app/add_project.py.
pub mod Json
pub mod Writing
pub mod Reading
pub mod Roundtrip
