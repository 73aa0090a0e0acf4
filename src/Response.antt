-- ===== src/Response.antt =====
-- flood_system/response_workflow: the response workflow of one district.
pub mod Enums
pub mod Roles
pub mod Transitions
pub mod Task
pub mod Requests
pub mod Records
pub mod Entry
pub mod Store
pub mod Exec
pub mod Timeline
pub mod Guards
pub mod Execution
pub mod Ending
pub mod Rules
pub mod Drafting
pub mod Feedback
pub mod Extensions
pub mod Review
pub mod Sweep
pub mod Gateway
pub mod Dispatch
pub mod Flags
pub mod Outbox
pub mod Alerts
pub mod Objects
pub mod Approval
pub mod Creation
pub mod Candidates
pub mod Revisions
pub mod Lifecycle
pub mod Ledger
pub mod Integrity
pub mod Service
pub mod Duties
mod Tests
