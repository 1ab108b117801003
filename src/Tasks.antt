-- ===== src/Tasks.antt =====
-- backend/internal/tasks/manager.go: the executions of tasks.
pub mod Records
pub mod Status
pub mod Execute
pub mod Manager
pub mod Settled
pub mod Once
mod OneRow
pub mod Force
pub mod Transitions
pub mod Cancel
pub mod Lost
mod Tests
mod LostTests
pub mod Ends
