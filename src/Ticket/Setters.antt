-- ===== src/Ticket/Setters.antt =====
-- The functions of ticket.go that build a ticket: MustTubeTicket and the With methods. The methods change
-- the ticket and return it; here they return the changed ticket.
use lymbo.Base.{String, ℤ, Option, none, some}
use lymbo.Errors.{ok, err}
use lymbo.Ticket.{Ticket, new_tube_ticket}
use lymbo.Marshal.{Dynamic, to_default_payload_marshaller, run_payload}

-- `none` is a panic.
unfoldable pub must_tube_ticket : ℤ → String → String → String → Option Ticket
must_tube_ticket now tube tid typ = elim (new_tube_ticket now tube tid typ) [
  | ok t ↦ some t
  | err _ ↦ none
]

-- WithPayload: t.Payload, _ = r.MarshalPayload()
unfoldable pub set_payload : {V : Type 0} → Dynamic V → V → Ticket → Ticket
set_payload dy v t = record t { payload = (run_payload dy (to_default_payload_marshaller dy v)).0 }

unfoldable pub set_nice : ℤ → Ticket → Ticket
set_nice nice t = record t { nice = nice }

unfoldable pub set_runat : ℤ → Ticket → Ticket
set_runat runat t = record t { runat = runat }

unfoldable pub set_tube : String → Ticket → Ticket
set_tube tube t = record t { tube = tube }

unfoldable pub set_group : String → Ticket → Ticket
set_group group t = record t { group_id = some group }
