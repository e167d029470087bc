-- ===== src/Improv/Ble.antt =====
-- The transport of src/esp_wifi_config_improv_ble.c between the core and a BLE stack: the command
-- queue, the check of a frame, the budget of a response, the stored result and the notifications.
-- The stack's calls into it are operations; the MTU is what the stack reports of the connection.

pub mod Frame
pub mod Budget
use esp_wifi_config.Common.{
  ℕ, ◌+◌, ◌-◌, List, [], ◌∷◌, ◌++◌, Option, none, some, Bool, true, false, ◌||◌, not, length, take,
  get_elem?, ltb, leb, ◌==◌, if◌then◌else◌,
}
use esp_wifi_config.Common.Bytes.{Bytes}
use esp_wifi_config.Wifi.{WifiApi}
use esp_wifi_config.Improv.Core.{
  ImprovState, ImprovError, error_none, invalid_rpc, Transport, serial, ble, Effect, notify,
  respond, identify, Improv, improv_set_error,
}
use esp_wifi_config.Improv.Networks.{single, rpc_max_payload}
use esp_wifi_config.Improv.Rpc.{DeviceInfo, improv_handle_rpc, improv_get_capabilities}
use esp_wifi_config.Improv.Serial.{improv_checksum}

-- IMPROV_BLE_CMD_QUEUE_DEPTH, IMPROV_BLE_ATT_MTU_MIN and the two overheads
abbrev pub cmd_queue_depth : ℕ
cmd_queue_depth = 2

abbrev pub att_mtu_min : ℕ
att_mtu_min = 23

abbrev pub notify_overhead : ℕ
notify_overhead = 3

abbrev pub result_overhead : ℕ
result_overhead = 3

-- A notification as it is handed to the stack.
pub data Notice : Type 0 where
  state_notice : ImprovState → Notice
  error_notice : ImprovError → Notice
  result_notice : Bytes → Notice

-- `mtu` is that of the connection, if there is one; `cmd_queue` is `none` before it is created.
pub record Link (W : Type 0) : Type 0 where
  pub core : Improv W
  pub mtu : Option ℕ
  pub cmd_queue : Option (List Bytes)
  pub rpc_result : Bytes
  pub notices : List Notice

-- The byte at the end against the sum of those before it.
abbrev pub checksum_holds : Bytes → Bool
checksum_holds frame = elim (get_elem? frame (length frame - 1)) [
  | none ↦ false
  | some b ↦ improv_checksum (take (length frame - 1) frame) == b
]

unfoldable pub improv_ble_frame_valid : Bytes → Bool
improv_ble_frame_valid [] = false
improv_ble_frame_valid (cmd ∷ []) = false
improv_ble_frame_valid (cmd ∷ n ∷ rest) =
    if ltb (length rest + 2) 3
    then false
    else if not (n + 3 == length rest + 2)
    then false
    else checksum_holds (cmd ∷ n ∷ rest)

-- 0 stands for no connection and for a handle that the stack does not know.
abbrev pub reported : Option ℕ → ℕ
reported none = 0
reported (some mtu) = mtu

abbrev pub at_least : ℕ → ℕ → ℕ
at_least low n = if ltb n low then low else n

abbrev pub at_most : ℕ → ℕ → ℕ
at_most high n = if ltb high n then high else n

unfoldable pub improv_ble_max_result_payload : Option ℕ → ℕ
improv_ble_max_result_payload mtu =
    at_most rpc_max_payload
      (at_least att_mtu_min (reported mtu) - notify_overhead - result_overhead)

-- A result with the checksum of the BLE specification behind it.
abbrev pub with_checksum : Bytes → Bytes
with_checksum frame = frame ++ improv_checksum frame ∷ []

abbrev pub is_error_none : ImprovError → Bool
is_error_none error_none = true
is_error_none _ = false

module _ {W : Type 0} where
  -- Notifications go out on a connection only.
  abbrev pub notify_link : Notice → Link W → Link W
  notify_link n l = elim l.mtu [ none ↦ l | some _ ↦ record l { notices = l.notices ++ n ∷ [] } ]

  -- `s_rpc_result` has 258 bytes.
  unfoldable pub ble_response_cb : Bytes → Link W → Link W
  ble_response_cb frame l =
      if ltb (2 + rpc_max_payload + 1) (length frame + 1)
      then l
      else notify_link (result_notice (with_checksum frame))
          (record l { rpc_result = with_checksum frame })

  unfoldable pub ble_state_change_cb : ImprovState → ImprovError → Link W → Link W
  ble_state_change_cb state error l =
      let told = notify_link (state_notice state) l in
      if is_error_none error then told else notify_link (error_notice error) told

  -- The callbacks that the core makes, in their order; those of the other transport are not ours.
  unfoldable pub play : List Effect → Link W → Link W
  unfolding ble_response_cb ble_state_change_cb
  play [] l = l
  play (respond ble frame ∷ es) l = play es (ble_response_cb frame l)
  play (notify ble state error ∷ es) l = play es (ble_state_change_cb state error l)
  play (respond serial frame ∷ es) l = play es l
  play (notify serial state error ∷ es) l = play es l
  play (identify ∷ es) l = play es l

  -- What the core does for the transport: its callbacks are those made meanwhile.
  abbrev pub through_core : (Improv W → Improv W) → Link W → Link W
  through_core f l =
      let m1 = f (record l.core { effects = [] }) in
      play m1.effects (record l { core = record m1 { effects = l.core.effects ++ m1.effects } })

-- What the stack answers a write with.
pub data WriteResult : Type 0 where
  written att_unlikely att_insufficient_res : WriteResult

module _ {W : Type 0} (api : WifiApi W) (info : DeviceInfo) where
  -- One message of the command task; `allocated` is whether there is memory for a scan.
  unfoldable pub handle_command : Bool → Bytes → Link W → Link W
  unfolding improv_ble_frame_valid improv_ble_max_result_payload play
  handle_command allocated frame l =
      if improv_ble_frame_valid frame
      then through_core
          (improv_handle_rpc api info allocated frame ble single
            (improv_ble_max_result_payload l.mtu))
          l
      else through_core (improv_set_error invalid_rpc) l

  abbrev pub take_command : Bool → Option (List Bytes) → Link W → Link W
  take_command allocated none l = l
  take_command allocated (some []) l = l
  take_command allocated (some (frame ∷ rest)) l =
      handle_command allocated frame (record l { cmd_queue = some rest })

  -- A round of `improv_ble_cmd_task`; with nothing in the queue it waits.
  unfoldable pub improv_ble_cmd_task : Bool → Link W → Link W
  unfolding handle_command
  improv_ble_cmd_task allocated l = take_command allocated l.cmd_queue l

  abbrev pub offered : Bool → Bytes → Option (List Bytes) → Link W → WriteResult × Link W
  offered allocated frame none l = (att_unlikely, l)
  offered false frame (some msgs) l = (att_insufficient_res, l)
  offered true frame (some msgs) l =
      if leb cmd_queue_depth (length msgs)
      then (att_unlikely, l)
      else (written, record l { cmd_queue = some (msgs ++ frame ∷ []) })

  -- A write of the RPC command; `allocated` is whether there is memory for a copy.
  unfoldable pub improv_rpc_cmd_access : Bool → Bytes → Link W → WriteResult × Link W
  improv_rpc_cmd_access allocated frame l =
      if length frame == 0 || ltb 512 (length frame)
      then (att_unlikely, l)
      else offered allocated frame l.cmd_queue l

  -- What is read of the four readable characteristics.
  unfoldable pub improv_state_access : Link W → ImprovState
  improv_state_access l = l.core.state

  unfoldable pub improv_error_access : Link W → ImprovError
  improv_error_access l = l.core.error

  unfoldable pub improv_rpc_result_access : Link W → Bytes
  improv_rpc_result_access l = l.rpc_result

  unfoldable pub improv_capabilities_access : Link W → ℕ
  unfolding improv_get_capabilities
  improv_capabilities_access l = improv_get_capabilities info

  unfoldable pub on_connect : ℕ → Link W → Link W
  on_connect mtu l = record l { mtu = some mtu }

  unfoldable pub on_disconnect : Link W → Link W
  on_disconnect l = record l { mtu = none }
