-- ===== src/Jog/Guard.antt =====
-- When a jog command is published: hmi/backend/services/jog_service.py.
use gp4_ws.Common.{Bool, ◌&&◌, List, [], ◌∷◌, ◌++◌, ◌≡◌, refl, arith, if◌then◌else◌}
use gp4_ws.Jog.{
  ServoBridgeStatus, JogBridgeStatusView, JogCommand, JogService, default_jog_status, started, view,
  on_servo_bridge_status, is_jogging, send_jog_command,
}

module _ (Float : Type 0) (zero_hz : Float) where
  abbrev Status : Type 0
  Status = ServoBridgeStatus Float zero_hz

  unfoldable pub receive_all : List Status → JogService Float zero_hz → JogService Float zero_hz
  receive_all [] s = s
  receive_all (msg ∷ msgs) s = receive_all msgs (on_servo_bridge_status Float zero_hz msg s)

  -- The last status, or `before` if there is none
  abbrev pub last_view :
      JogBridgeStatusView Float zero_hz → List Status → JogBridgeStatusView Float zero_hz
  last_view before [] = before
  last_view before (msg ∷ msgs) = last_view (view Float zero_hz msg) msgs

  -- A status that lets a jog command pass
  abbrev pub may_jog : JogBridgeStatusView Float zero_hz → Bool
  may_jog v =
      v.bridge_active && (v.robot_ready && (v.servo_active && is_jogging Float zero_hz v.state))

  receive_all-state :
      (msgs : List Status) (s : JogService Float zero_hz)
      → ((receive_all msgs s).status ≡ last_view s.status msgs)
        × ((receive_all msgs s).has_node ≡ s.has_node)
        × ((receive_all msgs s).has_publisher ≡ s.has_publisher)
        × ((receive_all msgs s).has_message_type ≡ s.has_message_type)
        × ((receive_all msgs s).published ≡ s.published)
  unfolding receive_all on_servo_bridge_status
  receive_all-state [] s = (refl, refl, refl, refl, refl)
  receive_all-state (msg ∷ msgs) s =
      receive_all-state msgs (on_servo_bridge_status Float zero_hz msg s)

  send-cases :
      (publish : JogCommand Float zero_hz → Bool) (command : JogCommand Float zero_hz)
      (s : JogService Float zero_hz)
      → (send_jog_command Float zero_hz publish command s).1.published ≡ (
          if s.has_node && (s.has_publisher && (s.has_message_type && may_jog s.status))
          then s.published ++ command ∷ []
          else s.published)
  unfolding send_jog_command
  send-cases publish command s = ground arith

  -- From its start, and after any messages on the status of the bridge, the service publishes a jog
  -- command exactly if it has a node, a publisher and the message type, and the last message says that
  -- the bridge is active and READY or ACTIVE, the robot ready and the servo active; before the first
  -- message it publishes none.
  pub published_exactly :
      (has_node has_publisher has_message_type : Bool) (msgs : List Status)
      (publish : JogCommand Float zero_hz → Bool) (command : JogCommand Float zero_hz)
      → (send_jog_command Float zero_hz publish command (
          receive_all msgs
            (started Float zero_hz has_node has_publisher has_message_type))).1.published
        ≡ (if has_node
              && (has_publisher
                  && (has_message_type
                      && may_jog (last_view (default_jog_status Float zero_hz) msgs)))
            then command ∷ []
            else [])
  published_exactly has_node has_publisher has_message_type msgs publish command =
      let s = started Float zero_hz has_node has_publisher has_message_type in
      let (status, node, publisher, message_type, published) = receive_all-state msgs s in
      rw
        (
          send-cases publish command (receive_all msgs s),
          status,
          node,
          publisher,
          message_type,
          published,
        )
        refl
