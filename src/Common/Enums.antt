-- ===== src/Common/Enums.antt =====
-- common/order.hpp: the enumerations of an order, their underlying values and their names.
use slick_sim.Prelude.{ℕ, String, Bool, eqb, if◌then◌else◌, ◌==◌, string_keyed}

pub data Side : Type 0 where
  buy sell unknown_side : Side

-- The underlying value of an enumerator.
unfoldable pub side_code : Side → ℕ
side_code Side.buy = 0
side_code Side.sell = 1
side_code Side.unknown_side = 2

unfoldable pub side_to_string : Side → String
side_to_string Side.buy = "BUY"
side_to_string Side.sell = "SELL"
side_to_string Side.unknown_side = "UNKNOWN"

unfoldable pub opposite_side : Side → Side
opposite_side Side.buy = Side.sell
opposite_side Side.sell = Side.buy
opposite_side Side.unknown_side = Side.unknown_side

pub data OrderType : Type 0 where
  unknown market limit stop stop_limit bracket twap roll_open roll_close liquidation scaled :
      OrderType

-- The underlying value of an enumerator.
unfoldable pub order_type_code : OrderType → ℕ
order_type_code OrderType.unknown = b'0'
order_type_code OrderType.market = b'1'
order_type_code OrderType.limit = b'2'
order_type_code OrderType.stop = b'3'
order_type_code OrderType.stop_limit = b'4'
order_type_code OrderType.bracket = b'5'
order_type_code OrderType.twap = b'6'
order_type_code OrderType.roll_open = b'7'
order_type_code OrderType.roll_close = b'8'
order_type_code OrderType.liquidation = b'9'
order_type_code OrderType.scaled = b'A'

unfoldable pub order_type_to_string : OrderType → String
order_type_to_string OrderType.unknown = "UNKNOWN"
order_type_to_string OrderType.market = "MARKET"
order_type_to_string OrderType.limit = "LIMIT"
order_type_to_string OrderType.stop = "STOP"
order_type_to_string OrderType.stop_limit = "STOP_LIMIT"
order_type_to_string OrderType.bracket = "BRAKET"
order_type_to_string OrderType.twap = "TWAP"
order_type_to_string OrderType.roll_open = "ROLL_OPEN"
order_type_to_string OrderType.roll_close = "ROLL_CLOSE"
order_type_to_string OrderType.liquidation = "LIQUIDATION"
order_type_to_string OrderType.scaled = "SCALED"

pub data ExecType : Type 0 where
  new canceled replaced pending_cancel rejected expired pending_replace trade trade_correct :
      ExecType
  trade_cancel order_status restated : ExecType

-- The underlying value of an enumerator.
unfoldable pub exec_type_code : ExecType → ℕ
exec_type_code ExecType.new = b'0'
exec_type_code ExecType.canceled = b'4'
exec_type_code ExecType.replaced = b'5'
exec_type_code ExecType.pending_cancel = b'6'
exec_type_code ExecType.rejected = b'8'
exec_type_code ExecType.expired = b'C'
exec_type_code ExecType.pending_replace = b'E'
exec_type_code ExecType.trade = b'F'
exec_type_code ExecType.trade_correct = b'G'
exec_type_code ExecType.trade_cancel = b'H'
exec_type_code ExecType.order_status = b'I'
exec_type_code ExecType.restated = b'D'

unfoldable pub exec_type_to_string : ExecType → String
exec_type_to_string ExecType.new = "NEW"
exec_type_to_string ExecType.canceled = "CANCELED"
exec_type_to_string ExecType.replaced = "REPLACED"
exec_type_to_string ExecType.pending_cancel = "PENDING_CANCEL"
exec_type_to_string ExecType.rejected = "REJECTED"
exec_type_to_string ExecType.expired = "EXPIRED"
exec_type_to_string ExecType.pending_replace = "PENDING_REPLACE"
exec_type_to_string ExecType.trade = "TRADE"
exec_type_to_string ExecType.trade_correct = "TRADE_CORRECT"
exec_type_to_string ExecType.trade_cancel = "TRADE_CANCEL"
exec_type_to_string ExecType.order_status = "ORDER_STATUS"
exec_type_to_string ExecType.restated = "RESTATED"

pub data OrderStatus : Type 0 where
  new partially_filled filled done_for_day canceled replaced pending_cancel stopped rejected :
      OrderStatus
  suspended pending_new calculated expired accepted_for_bidding pending_replace : OrderStatus

-- The underlying value of an enumerator.
unfoldable pub order_status_code : OrderStatus → ℕ
order_status_code OrderStatus.new = b'0'
order_status_code OrderStatus.partially_filled = b'1'
order_status_code OrderStatus.filled = b'2'
order_status_code OrderStatus.done_for_day = b'3'
order_status_code OrderStatus.canceled = b'4'
order_status_code OrderStatus.replaced = b'5'
order_status_code OrderStatus.pending_cancel = b'6'
order_status_code OrderStatus.stopped = b'7'
order_status_code OrderStatus.rejected = b'8'
order_status_code OrderStatus.suspended = b'9'
order_status_code OrderStatus.pending_new = b'A'
order_status_code OrderStatus.calculated = b'B'
order_status_code OrderStatus.expired = b'C'
order_status_code OrderStatus.accepted_for_bidding = b'D'
order_status_code OrderStatus.pending_replace = b'E'

unfoldable pub order_status_to_string : OrderStatus → String
order_status_to_string OrderStatus.new = "NEW"
order_status_to_string OrderStatus.partially_filled = "PARTIALLY_FILLED"
order_status_to_string OrderStatus.filled = "FILLED"
order_status_to_string OrderStatus.done_for_day = "DONE_FOR_DAY"
order_status_to_string OrderStatus.canceled = "CANCELLED"
order_status_to_string OrderStatus.replaced = "REPLACED"
order_status_to_string OrderStatus.pending_cancel = "PENDING_CANCEL"
order_status_to_string OrderStatus.stopped = "STOPPED"
order_status_to_string OrderStatus.rejected = "REJECTED"
order_status_to_string OrderStatus.suspended = "SUSPENDED"
order_status_to_string OrderStatus.pending_new = "PENDING_NEW"
order_status_to_string OrderStatus.calculated = "CALCULATED"
order_status_to_string OrderStatus.expired = "EXPIRED"
order_status_to_string OrderStatus.accepted_for_bidding = "ACCEPTED_FOR_BIDDING"
order_status_to_string OrderStatus.pending_replace = "PENDING_REPLACE"

pub data TimeInForce : Type 0 where
  day good_till_cancel at_the_opening immediate_or_cancel fill_or_kill good_till_crossing :
      TimeInForce
  good_till_date : TimeInForce

-- The underlying value of an enumerator.
unfoldable pub time_in_force_code : TimeInForce → ℕ
time_in_force_code TimeInForce.day = b'0'
time_in_force_code TimeInForce.good_till_cancel = b'1'
time_in_force_code TimeInForce.at_the_opening = b'2'
time_in_force_code TimeInForce.immediate_or_cancel = b'3'
time_in_force_code TimeInForce.fill_or_kill = b'4'
time_in_force_code TimeInForce.good_till_crossing = b'5'
time_in_force_code TimeInForce.good_till_date = b'6'

unfoldable pub time_in_force_to_string : TimeInForce → String
time_in_force_to_string TimeInForce.day = "DAY"
time_in_force_to_string TimeInForce.good_till_cancel = "GOOD_TILL_CANCEL"
time_in_force_to_string TimeInForce.at_the_opening = "AT_THE_OPENING"
time_in_force_to_string TimeInForce.immediate_or_cancel = "IMMEDIATE_OR_CANCEL"
time_in_force_to_string TimeInForce.fill_or_kill = "FILL_OR_KILL"
time_in_force_to_string TimeInForce.good_till_crossing = "GOOD_TILL_CROSSING"
time_in_force_to_string TimeInForce.good_till_date = "GOOD_TILL_DATE"

pub data SelfMatchPreventionMode : Type 0 where
  none cancel_resting cancel_newest : SelfMatchPreventionMode

-- The underlying value of an enumerator.
unfoldable pub smp_mode_code : SelfMatchPreventionMode → ℕ
smp_mode_code SelfMatchPreventionMode.none = 0
smp_mode_code SelfMatchPreventionMode.cancel_resting = 1
smp_mode_code SelfMatchPreventionMode.cancel_newest = 2

unfoldable pub smp_mode_to_string : SelfMatchPreventionMode → String
smp_mode_to_string SelfMatchPreventionMode.none = "none"
smp_mode_to_string SelfMatchPreventionMode.cancel_resting = "cancel_resting"
smp_mode_to_string SelfMatchPreventionMode.cancel_newest = "cancel_newest"

-- An unrecognised name disables self-match prevention.
unfoldable pub to_smp_mode : String → SelfMatchPreventionMode
to_smp_mode name =
    if name == "cancel_resting"
    then SelfMatchPreventionMode.cancel_resting
    else if name == "cancel_newest"
    then SelfMatchPreventionMode.cancel_newest
    else SelfMatchPreventionMode.none

pub data ProductType : Type 0 where
  unknown spot future : ProductType

-- The underlying value of an enumerator.
unfoldable pub product_type_code : ProductType → ℕ
product_type_code ProductType.unknown = 0
product_type_code ProductType.spot = 1
product_type_code ProductType.future = 2

unfoldable pub product_type_to_string : ProductType → String
product_type_to_string ProductType.unknown = "UNKNOWN_PRODUCT_TYPE"
product_type_to_string ProductType.spot = "SPOT"
product_type_to_string ProductType.future = "FUTURE"

-- `==` on two statuses, two times in force and two modes compares the underlying values.
unfoldable pub status_is : OrderStatus → OrderStatus → Bool
status_is a b = eqb (order_status_code a) (order_status_code b)

unfoldable pub tif_is : TimeInForce → TimeInForce → Bool
tif_is a b = eqb (time_in_force_code a) (time_in_force_code b)

unfoldable pub smp_is : SelfMatchPreventionMode → SelfMatchPreventionMode → Bool
smp_is a b = eqb (smp_mode_code a) (smp_mode_code b)
