-- ===== src/Runtime.antt =====
-- The runtime of factory tasks: src/llm_gateway/llm_gateway/task_runtime.py, with the task nodes
-- and the world model of factory_task.py.
pub mod Task
pub mod State
pub mod Nodes
pub mod Replans
pub mod Skills
pub mod Keeping
pub mod Polls
pub mod Counts
pub mod Parse
pub mod Plan
pub mod WellFormed
pub mod Accepted
pub mod RoundTrip
pub mod Restored
pub mod Budget
pub mod Limits
mod Tests
