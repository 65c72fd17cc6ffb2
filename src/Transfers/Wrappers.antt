-- ===== src/Transfers/Wrappers.antt =====
-- The calls of openusb/src/api.c that make a request for one transfer of each type, and the control
-- transfer that the library itself makes.
use libopenusb.Prelude.{ℤ, ℕ, Bool, false, Option, none, some}
use libopenusb.Codes.{no_resources, badarg}
use libopenusb.Run.{Run, ok}
use libopenusb.Transfers.{State, XferOps, control, interrupt, bulk, isochronous}
use libopenusb.Transfers.Checks.{Dev}
use libopenusb.Transfers.Submit.{usbi_io_sync, openusb_xfer_wait}

-- A control, interrupt, bulk or isochronous request of a program: its length and timeout.
pub record Payload : Type 0 where
  pub size : ℕ
  pub limit : ℕ

-- The surroundings of a transfer: the device that its handle finds, the memory of the I/O, and what
-- goes on while it waits; `id` is the address of the request's own structure, if there is memory.
pub record Call : Type 0 where
  pub found : Option Dev
  pub memory : Option ℕ × Bool
  pub wake : State → Run State
  pub id : Option ℕ

unfoldable pub xfer_of_kind : ℕ → Call → ℕ → ℕ → Option Payload → State → Run (ℤ × State)
xfer_of_kind kind c ifc ept payload s = elim payload [
  | none ↦ ok (badarg, s)
  | some p ↦ elim c.id [
    | none ↦ ok (no_resources, s)
    | some id ↦
        openusb_xfer_wait c.found c.memory c.wake
          (record {
            id = id;
            kind = kind;
            interface = ifc;
            endpoint = ept;
            size = p.size;
            limit = p.limit;
            cb = false;
          })
          s
  ]
]

unfoldable pub openusb_ctrl_xfer : Call → ℕ → ℕ → Option Payload → State → Run (ℤ × State)
openusb_ctrl_xfer = xfer_of_kind control

unfoldable pub openusb_intr_xfer : Call → ℕ → ℕ → Option Payload → State → Run (ℤ × State)
openusb_intr_xfer = xfer_of_kind interrupt

unfoldable pub openusb_bulk_xfer : Call → ℕ → ℕ → Option Payload → State → Run (ℤ × State)
openusb_bulk_xfer = xfer_of_kind bulk

unfoldable pub openusb_isoc_xfer : Call → ℕ → ℕ → Option Payload → State → Run (ℤ × State)
openusb_isoc_xfer = xfer_of_kind isochronous

-- A control transfer to endpoint 0, without the checks; the request is on the stack, at `id`.
unfoldable pub usbi_control_xfer :
    XferOps → ℕ → Option ℕ × Bool → (State → Run State) → ℕ → ℕ → State → Run (ℤ × State)
usbi_control_xfer ops id memory wake size timeout s =
    usbi_io_sync ops memory wake
      (record {
        id = id;
        kind = control;
        interface = 0;
        endpoint = 0;
        size = size;
        limit = timeout;
        cb = false;
      })
      s
