-- ===== src/Oms/OrderState.antt =====
-- cpp/oms/order_state.hpp: OrderStateMachine.
pub mod Lifecycle
use quantforge_engine.Prelude.{Bool, true, false, ◌||◌, ◌&&◌, if◌then◌else◌}
use quantforge_engine.Prelude.Text.{Text, codes}
use quantforge_engine.Types.{OrderStatus, is_status}

unfoldable pub is_legal : OrderStatus → OrderStatus → Bool
is_legal OrderStatus.pending to =
    is_status to OrderStatus.opened
    || is_status to OrderStatus.rejected
    || is_status to OrderStatus.cancelled
    || is_status to OrderStatus.trigger_pending
is_legal OrderStatus.trigger_pending to =
    is_status to OrderStatus.opened || is_status to OrderStatus.cancelled
is_legal OrderStatus.opened to =
    is_status to OrderStatus.complete
    || is_status to OrderStatus.partial
    || is_status to OrderStatus.cancelled
is_legal OrderStatus.partial to =
    is_status to OrderStatus.complete || is_status to OrderStatus.cancelled
is_legal OrderStatus.complete to = false
is_legal OrderStatus.cancelled to = false
is_legal OrderStatus.rejected to = false

-- `transition` reads the status, tests it and swaps it by compare-and-exchange. `loaded` is what it
-- read, `current` the status when the exchange happens: another thread may have come between.
unfoldable pub transition_at : OrderStatus → OrderStatus → OrderStatus → OrderStatus × Bool
unfolding is_legal
transition_at loaded current to =
    if is_legal loaded to
    then (if is_status loaded current then (to, true) else (current, false))
    else (current, false)

-- `transition` with no thread in between.
unfoldable pub transition : OrderStatus → OrderStatus → OrderStatus × Bool
unfolding transition_at
transition current to = transition_at current current to

unfoldable pub is_terminal : OrderStatus → Bool
is_terminal s =
    is_status s OrderStatus.complete
    || is_status s OrderStatus.cancelled
    || is_status s OrderStatus.rejected

pub status_name : OrderStatus → Text
status_name OrderStatus.pending = codes "PENDING"
status_name OrderStatus.opened = codes "OPEN"
status_name OrderStatus.complete = codes "COMPLETE"
status_name OrderStatus.cancelled = codes "CANCELLED"
status_name OrderStatus.rejected = codes "REJECTED"
status_name OrderStatus.partial = codes "PARTIAL"
status_name OrderStatus.trigger_pending = codes "TRIGGER_PENDING"
