-- ===== src/Router.antt =====
-- router.go: the routing table of a router and its handler for tickets without a route.
-- Handlers are values of a type `H` of which nothing is known but how they run. The lock of a
-- router makes each method atomic here; Locking has the single steps.
pub mod Locking
use lymbo.Base.{
  String, ◌≡◌, ◌≢◌, List, [], Option, none, some, Bool, true, false, ◌||◌, arith, ◌==◌, eq_iff,
  if◌then◌else◌, lookup, insert, lookup-insert,
}
use lymbo.Errors.{Result, ok, err, handler_not_found, route_empty, handler_nil, route_taken}
use lymbo.Ticket.{Ticket}

-- A value of the interface Handler: nil, a HandlerFunc that is nil, or a usable handler.
pub data Handler (H : Type 0) : Type 0 where
  nil_interface nil_func : Handler H
  usable : H → Handler H

pub record Router (H : Type 0) : Type 0 where
  pub routing_table : List (String × H)
  pub not_found_handler : Handler H

-- What a ticket is given to: a value of the interface, or the function NotFound of the package.
pub data Resolved (H : Type 0) : Type 0 where
  handler : Handler H → Resolved H
  package_not_found : Resolved H

abbrev pub new_router : {H : Type 0} → Router H
new_router = record { routing_table = []; not_found_handler = nil_interface }

module _ {H : Type 0} where
  unfoldable pub register : String → Handler H → Router H → Router H × Result (Unit {0})
  register route nil_interface r = (r, err (if route == "" then route_empty else handler_nil))
  register route nil_func r = (r, err (if route == "" then route_empty else handler_nil))
  register route (usable h) r =
      if route == "" then (r, err route_empty) else elim (lookup route r.routing_table) [
        | some _ ↦ (r, err route_taken)
        | none ↦ (record r { routing_table = insert route h r.routing_table }, ok tt)
      ]

  -- NotFoundHandler of a router.
  unfoldable pub router_not_found : Handler H → Resolved H
  router_not_found nil_interface = package_not_found
  router_not_found nil_func = handler nil_func
  router_not_found (usable h) = handler (usable h)

  -- Handler
  unfoldable pub handler_for : Ticket → Router H → Resolved H
  unfolding router_not_found
  handler_for t r = elim (lookup t.type r.routing_table) [
    | some h ↦ handler (usable h)
    | none ↦ router_not_found r.not_found_handler
  ]

  -- NotFound, where `none` is a panic. A HandlerFunc that is nil is no nil interface.
  unfoldable pub set_not_found : Handler H → Router H → Option (Router H)
  set_not_found nil_interface r = none
  set_not_found nil_func r = some (record r { not_found_handler = nil_func })
  set_not_found (usable h) r = some (record r { not_found_handler = usable h })

  -- NotFoundFunc, of a function that is nil or not.
  unfoldable pub set_not_found_func : Option H → Router H → Option (Router H)
  set_not_found_func none r = none
  set_not_found_func (some h) r = some (record r { not_found_handler = usable h })

  -- ProcessTicket of what was resolved, given how handlers run; `none` is a panic.
  unfoldable pub process :
      (H → Ticket → Result (Unit {0})) → Resolved H → Ticket → Option (Result (Unit {0}))
  process run (handler (usable h)) t = some (run h t)
  process run (handler _) t = none
  process run package_not_found t = some (err handler_not_found)

  unfoldable pub is_nil : Handler H → Bool
  is_nil (usable h) = false
  is_nil _ = true

  unfoldable pub is_taken : String → Router H → Bool
  is_taken route r = elim (lookup route r.routing_table) [ none ↦ false | some _ ↦ true ]

  -- A registration is refused, and changes nothing, for an empty route, a nil handler or a route
  -- that is taken; the first of these gives the error.
  pub register_refused :
      (route : String) (g : Handler H) (r : Router H)
      → (route == "" || is_nil g || is_taken route r) ≡ true
      → register route g r ≡ (
        r,
        err (if route == "" then route_empty else if is_nil g then handler_nil else route_taken),
      )
  unfolding register is_nil is_taken
  register_refused route nil_interface r h = ground arith
  register_refused route nil_func r h = ground arith
  register_refused route (usable h) r e = ground arith

  -- A registration of a usable handler for a route that is not empty and not taken succeeds; then
  -- exactly the tickets of that type go to the new handler, and all others to where they went
  -- before.
  pub register_routes :
      (route : String) (h : H) (r : Router H) (t : Ticket)
      → route ≢ ""
      → is_taken route r ≡ false
      → ((register route (usable h) r).1 ≡ ok tt)
        × (handler_for t (register route (usable h) r).0
            ≡ (if route == t.type then handler (usable h) else handler_for t r))
  unfolding register handler_for is_taken
  register_routes route h r t named free = (
    ground (arith, eq_iff route ""),
    ground (arith, eq_iff route "", lookup-insert route t.type h r.routing_table),
  )

  -- A ticket whose type has no route goes to the handler that NotFoundFunc or NotFound has set, and
  -- these two do the same.
  pub not_found_routes :
      (run : H → Ticket → Result (Unit {0})) (t : Ticket) (r r' : Router H) (h : H)
      → lookup t.type r.routing_table ≡ none
      → set_not_found_func (some h) r ≡ some r'
      → (set_not_found (usable h) r ≡ some r') × (process run (handler_for t r') t ≡ some (run h t))
  unfolding handler_for set_not_found set_not_found_func process
  not_found_routes run t r r' h e s = (ground arith, ground arith)

  -- Without such a handler a ticket whose type has no route ends with ErrHandlerNotFound. NotFound
  -- takes a HandlerFunc that is nil, though, and then processing such a ticket panics.
  pub unrouted :
      (run : H → Ticket → Result (Unit {0})) (t : Ticket) (r r' : Router H)
      → lookup t.type r.routing_table ≡ none
      → r.not_found_handler ≡ nil_interface
      → set_not_found nil_func r ≡ some r'
      → (process run (handler_for t r) t ≡ some (err handler_not_found))
        × (process run (handler_for t r') t ≡ none)
  unfolding handler_for set_not_found process
  unrouted run t r r' e n s = (ground arith, ground arith)
