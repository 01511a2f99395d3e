-- ===== src/Dispatch.antt =====
-- hmi/backend/ros: what the supervisor's ROS adapter does with a confirmed command, in
-- command_dispatch.py and jog_dispatch.py, with the joints of hmi/backend/domain.
pub mod Joints
pub mod Targets
pub mod Preflight
pub mod Payload
pub mod Primitive
pub mod Goal
pub mod KeyErrors
pub mod Adapter
pub mod Confirm
pub mod Required
pub mod Orders
pub mod Cleared
pub mod Reports
pub mod Handles
pub mod Conclusion
pub mod Supervised
mod Tests
