-- ===== src/Client/Tests/Grants.antt =====
-- Concrete sum-up requests for notification handles.
use ads_rs.Prelude.{◌≡◌, true, false, List, [], ◌∷◌, ◌++◌, if◌then◌else◌}
use ads_rs.Wire.{write_u32}
use ads_rs.Errors.{ok, err, panic}
use ads_rs.NetId.Tests.{plc_addr}
use ads_rs.Client.Action.{received, Client, mem_key}
use ads_rs.Client.Requests.{
  AddNotifRequest, add_notif_request, DelNotifRequest, del_notif_request, handle_of,
}
use ads_rs.Client.Device.Multi.{deleted, add_notification_multi, delete_notification_multi}
use ads_rs.Client.Device.Grants.{
  names_key, mem_key-add_notification_multi, mem_key-delete_notification_multi,
}
use ads_rs.Client.Tests.{client_with, byte_order}
use ads_rs.Client.Tests.Devices.{sumup_answer, attributes}

-- Two notifications, of which the device grants the first, with the handle 41.
abbrev wanted : List (AddNotifRequest (Unit {0}))
wanted = add_notif_request 1 2 attributes ∷ add_notif_request 1 3 attributes ∷ []

abbrev granting : Client
granting = client_with (
    received sumup_answer (
      write_u32 0
      ++ (write_u32 16 ++ (write_u32 0 ++ (write_u32 41 ++ (write_u32 0x703 ++ write_u32 0)))))
    ∷ [])

mem_key-add_notification_multi_example :
    mem_key (plc_addr, 41) (add_notification_multi plc_addr wanted granting).1.notif_handles
    ≡ elim (add_notification_multi plc_addr wanted granting).0 [
      | ok rs ↦
          if names_key handle_of plc_addr (plc_addr, 41) rs
          then true
          else mem_key (plc_addr, 41) granting.notif_handles
      | err e ↦ mem_key (plc_addr, 41) granting.notif_handles
      | panic ↦ mem_key (plc_addr, 41) granting.notif_handles
    ]
mem_key-add_notification_multi_example =
    mem_key-add_notification_multi plc_addr wanted granting (plc_addr, 41)

-- The deletion of the handle 40, which the device grants.
abbrev unwanted : List DelNotifRequest
unwanted = del_notif_request 40 ∷ []

abbrev deleting : Client
deleting = client_with (received sumup_answer (write_u32 0 ++ (write_u32 4 ++ write_u32 0)) ∷ [])

mem_key-delete_notification_multi_example :
    mem_key (plc_addr, 40) (delete_notification_multi plc_addr unwanted deleting).1.notif_handles
    ≡ elim (delete_notification_multi plc_addr unwanted deleting).0 [
      | ok rs ↦
          if names_key deleted plc_addr (plc_addr, 40) rs
          then false
          else mem_key (plc_addr, 40) deleting.notif_handles
      | err e ↦ mem_key (plc_addr, 40) deleting.notif_handles
      | panic ↦ mem_key (plc_addr, 40) deleting.notif_handles
    ]
mem_key-delete_notification_multi_example =
    mem_key-delete_notification_multi plc_addr unwanted deleting (plc_addr, 40)
