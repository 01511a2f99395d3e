-- ===== src/Lib.antt =====
-- A verification library for the GP4 robot workcell: the Python code that decides whether an
-- operator's or a planner's command may move the robot.
--
-- The parts, and how they interact. The operator's browser talks to the HMI backend (hmi/backend):
-- api/app.py calls the supervisor (services/supervisor_service.py with its mixins
-- supervisor_lifecycle.py, supervisor_execution.py and supervisor_validation.py), which keeps the
-- command table, asks the lease service (services/session_lock_service.py) who controls the robot,
-- moves each command through the table of domain/state_machine.py, and hands a confirmed command to
-- its ROS adapter (ros/adapter.py with ros/command_dispatch.py and ros/jog_dispatch.py), which
-- checks the telemetry, has the command validated and sends the goal. On the ROS side every command
-- passes the service /validate_command of the safety package (src/safety/safety): execution_gate.py
-- asks safety_manager.py whether the robot is ready, command_validator.py about the command, and
-- workspace_guard.py about its points. The gateway (src/llm_gateway/llm_gateway) parses tasks made
-- of skills with factory_task.py and runs them with task_runtime.py; gripper_adapter.py is its
-- access to the gripper, and scene_cache.py keeps what it saw. The perception node publishes what
-- its tracker has seen often enough.
--
-- Which file models which part:
-- - Lifecycle: the states of domain/models.py and the table of domain/state_machine.py.
-- - Session: SessionLockService, with one function per method. The state is the active lease and
--   the ttl; each method takes the clock reading that it makes, and new lease ids and tokens.
-- - Supervisor: Records and Store have the records and the state (command table, transitions
--   written to the audit log, lease service, what was handed to the adapter, and a count of the
--   readings of the outside world). Gate is _validate_command and its filters; Execution, Control
--   and Sequences are the methods that confirm, execute, cancel and expire, with the same names as
--   the code's. Requests has the operator's requests, and `serve` runs a list of them. Guard,
--   Dispatches, Trail and Settled hold the theorems, on the lemmas of Keeping, Effects, Sending and
--   Confirming.
-- - Python: JSON values and the conversions float(), int() and bool(). Floats and the json module
--   are the fields of the record PyLib.
-- - Safety: Rules has the values read of safety_rules.yaml; Workspace is check_pose, Validator is
--   CommandValidator, Manager is SafetyManager, and Points, Blended and Gate are ExecutionGate. A
--   check answers `none` for (True, ""), a reason, or the exception it lets pass. Readiness,
--   SafePoints, Sound, Scales and Extended hold theorems.
-- - Runtime: Task has the task tree and the world model of factory_task.py; State, Nodes and
--   Replans are TaskRuntime. The skill executor, the stop flag and the replan handler are fields of
--   the record TaskRuntime and act on a world of their own. Polls, Counts, Budget and Limits hold
--   the theorems, on the induction of Keeping. Parse is parse_factory_task of factory_task.py and
--   Plan its _node_to_runtime_plan, with WellFormed, Accepted, RoundTrip and Restored on what they
--   share.
-- - Dispatch: Joints is domain/joint_utils.py; Preflight, Payload, Goal, Adapter and Confirm are
--   the adapter's preflight, the command it builds, the goal made of it, the calls to ROS, and
--   confirm_command with abort_command. What ROS answers, and the text operations of Python, are
--   the fields of the records RosClients and TextLib. Required, KeyErrors (on Primitive), Targets, Cleared (on
--   Orders), Reports and Handles hold theorems, and Supervised (on Conclusion) joins it to the
--   supervisor.
-- - Gripper: GripperIoAdapter of gripper_adapter.py, with the theorem in Guarded, on
--   Configured.
-- - SceneCache: the snapshots of scene_cache.py, over the dictionary of Keys, with the theorem in
--   Recent.
-- - Perception: Tracker is TemporalTracker of
--   src/gp4_perception/gp4_perception/temporal_tracker.py, with theorems in Entries, Retained and
--   Fading.
-- - Jog: the status of the servo bridge and send_jog_command of services/jog_service.py, with the
--   theorem in Guard.
-- - Common: actions that keep a state and may raise (Outcome, Fallible), lists and dictionaries,
--   and signed integers.
--
-- Bounds and fuel. The loop of replans runs on fuel, one more than its limit; every other loop is
-- structural. The settings of the tracker are natural numbers. Instants, counts and positions are
-- unbounded, as in Python.
--
-- Not modelled: the submission and parsing of intents, views, HTTP routes, telemetry, the SQLite
-- audit store, the start of the ROS node and its subscriptions, the YAML loader, the task planner
-- and the compiler of skills, the drawing code, the rest of perception, the jog pendant, launch
-- files, tools, the C++ packages and the browser client. The range checks of ROS message setters
-- and the polling of ROS futures are left out. Chat messages, trace events and log lines are left
-- out of the modelled methods. Each method is one step: the threads of the HTTP server are not
-- interleaved inside a method.
pub mod Common
pub mod Dispatch
pub mod Gripper
pub mod Jog
pub mod Lifecycle
pub mod Perception
pub mod Python
pub mod Runtime
pub mod Safety
pub mod SceneCache
pub mod Session
pub mod Supervisor
