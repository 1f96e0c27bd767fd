-- ===== src/Client/Lifecycle/Drop.antt =====
-- client.rs: `Client::drop`.
use ads_rs.Prelude.{ℕ, Bool, true, false, List, [], ◌∷◌}
use ads_rs.Wire.{Bytes, ByteOrder, write_u16}
use ads_rs.Errors.{ok}
use ads_rs.Client.Action.{
  Action, HandleKey, device, ignored, written, next_arrival, later_arrivals, ◌>>◌,
}
use ads_rs.Client.Device.{delete_notification}

module _ ⦃bo : ByteOrder⦄ where
  -- `for (addr, handle) in std::mem::take(handles)`. An error of a deletion is ignored; a panic in one
  -- ends the loop.
  unfoldable pub close_handles : List HandleKey → Action (Unit {0})
  unfolding ignored
  close_handles [] c = (ok tt, c)
  close_handles ((target, handle) ∷ handles) c =
      ((λ c'. ignored (delete_notification (device c target) handle c')) >> close_handles handles) c

  -- The message that removes a port from the router.
  abbrev pub close_port_msg : ℕ → Bytes
  close_port_msg port = 1 ∷ 0 ∷ 2 ∷ 0 ∷ 0 ∷ 0 ∷ write_u16 port

  -- The port is removed from the router if it was opened. The write takes an outcome as a
  -- request does; a failure of it is ignored, and nothing is waited for.
  unfoldable pub close_port : Bool → Action (Unit {0})
  close_port false c = (ok tt, c)
  close_port true c = (
    ok tt,
    record c {
      sent = written (next_arrival c.arrivals) (close_port_msg c.source.port) ∷ c.sent;
      arrivals = later_arrivals c.arrivals;
    },
  )

  -- `Client::drop`: every active handle is deleted, and then the port is closed.
  unfoldable pub drop_client : Bool → Action (Unit {0})
  unfolding close_handles close_port
  drop_client source_port_opened c =
      (close_handles c.notif_handles >> close_port source_port_opened)
        (record c { notif_handles = [] })
