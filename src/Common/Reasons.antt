-- ===== src/Common/Reasons.antt =====
-- common/messages.hpp: the message kinds and the reject reasons, with their names.
use slick_sim.Prelude.{ℕ, String}

pub data OrdRejectReason : Type 0 where
  none unknown unknown_contract unknown_order market_closed market_halted smp : OrdRejectReason
  invalid_display_qty fak_must_be_limit iceberg_must_be_limit iceberg_must_be_day_or_gtc :
      OrdRejectReason
  price_cant_be_below_stop_price price_cant_be_above_stop_price : OrdRejectReason
  stop_price_must_be_below_last_trade_price stop_price_must_be_above_last_trade_price :
      OrdRejectReason
  time_in_force_not_allowed_in_current_market_state : OrdRejectReason
  order_type_not_allowed_in_current_market_state invalid_tick_size invalid_qty invalid_min_qty :
      OrdRejectReason
  client_order_id_already_exists fok_cannot_fill : OrdRejectReason

-- The underlying value of an enumerator.
unfoldable pub ord_reject_reason_code : OrdRejectReason → ℕ
ord_reject_reason_code OrdRejectReason.none = 0
ord_reject_reason_code OrdRejectReason.unknown = 1
ord_reject_reason_code OrdRejectReason.unknown_contract = 2
ord_reject_reason_code OrdRejectReason.unknown_order = 3
ord_reject_reason_code OrdRejectReason.market_closed = 4
ord_reject_reason_code OrdRejectReason.market_halted = 5
ord_reject_reason_code OrdRejectReason.smp = 6
ord_reject_reason_code OrdRejectReason.invalid_display_qty = 7
ord_reject_reason_code OrdRejectReason.fak_must_be_limit = 8
ord_reject_reason_code OrdRejectReason.iceberg_must_be_limit = 9
ord_reject_reason_code OrdRejectReason.iceberg_must_be_day_or_gtc = 10
ord_reject_reason_code OrdRejectReason.price_cant_be_below_stop_price = 11
ord_reject_reason_code OrdRejectReason.price_cant_be_above_stop_price = 12
ord_reject_reason_code OrdRejectReason.stop_price_must_be_below_last_trade_price = 13
ord_reject_reason_code OrdRejectReason.stop_price_must_be_above_last_trade_price = 14
ord_reject_reason_code OrdRejectReason.time_in_force_not_allowed_in_current_market_state = 15
ord_reject_reason_code OrdRejectReason.order_type_not_allowed_in_current_market_state = 16
ord_reject_reason_code OrdRejectReason.invalid_tick_size = 17
ord_reject_reason_code OrdRejectReason.invalid_qty = 18
ord_reject_reason_code OrdRejectReason.invalid_min_qty = 19
ord_reject_reason_code OrdRejectReason.client_order_id_already_exists = 20
ord_reject_reason_code OrdRejectReason.fok_cannot_fill = 21

unfoldable pub ord_reject_reason_to_string : OrdRejectReason → String
ord_reject_reason_to_string OrdRejectReason.none = "NONE"
ord_reject_reason_to_string OrdRejectReason.unknown = "UNKNOWN"
ord_reject_reason_to_string OrdRejectReason.unknown_contract = "UNKNOWN_CONTRACT"
ord_reject_reason_to_string OrdRejectReason.unknown_order = "UNKNOWN_ORDER"
ord_reject_reason_to_string OrdRejectReason.market_closed = "MARKET_CLOSED"
ord_reject_reason_to_string OrdRejectReason.market_halted = "MARKET_HALTED"
ord_reject_reason_to_string OrdRejectReason.smp = "SMP"
ord_reject_reason_to_string OrdRejectReason.invalid_display_qty = "INVALID_DISPLAY_QTY"
ord_reject_reason_to_string OrdRejectReason.fak_must_be_limit = "FAK_MUST_BE_LIMIT"
ord_reject_reason_to_string OrdRejectReason.iceberg_must_be_limit = "ICEBERG_MUST_BE_LIMIT"
ord_reject_reason_to_string OrdRejectReason.iceberg_must_be_day_or_gtc =
    "ICEBERG_MUST_BE_DAY_OR_GTC"
ord_reject_reason_to_string OrdRejectReason.price_cant_be_below_stop_price =
    "PRICE_CANT_BE_BELOW_STOP_PRICE"
ord_reject_reason_to_string OrdRejectReason.price_cant_be_above_stop_price =
    "PRICE_CANT_BE_ABOVE_STOP_PRICE"
ord_reject_reason_to_string OrdRejectReason.stop_price_must_be_below_last_trade_price =
    "STOP_PRICE_MUST_BE_BELOW_LAST_TRADE_PRICE"
ord_reject_reason_to_string OrdRejectReason.stop_price_must_be_above_last_trade_price =
    "STOP_PRICE_MUST_BE_ABOVE_LAST_TRADE_PRICE"
ord_reject_reason_to_string OrdRejectReason.time_in_force_not_allowed_in_current_market_state =
    "TIME_IN_FORCE_NOT_ALLOWED_IN_CURRENT_MARKET_STATE"
ord_reject_reason_to_string OrdRejectReason.order_type_not_allowed_in_current_market_state =
    "ORDER_TYPE_NOT_ALLOWED_IN_CURRENT_MARKET_STATE"
ord_reject_reason_to_string OrdRejectReason.invalid_tick_size = "INVALID_TICK_SIZE"
ord_reject_reason_to_string OrdRejectReason.invalid_qty = "INVALID_QTY"
ord_reject_reason_to_string OrdRejectReason.invalid_min_qty = "INVALID_MIN_QTY"
ord_reject_reason_to_string OrdRejectReason.client_order_id_already_exists =
    "CLIENT_ORDER_ID_ALREADY_EXISTS"
ord_reject_reason_to_string OrdRejectReason.fok_cannot_fill = "FOK_CANNOT_FILL"

pub data CxlRejectReason : Type 0 where
  none unknown market_closed market_halted preopen order_not_found invalid_display_qty :
      CxlRejectReason
  iceberg_request_on_non_iceberg non_iceberg_request_on_iceberg order_type_mismatch :
      CxlRejectReason
  time_in_force_mismatch price_cant_be_below_stop_price price_cant_be_above_stop_price :
      CxlRejectReason
  stop_price_must_be_below_last_trade_price stop_price_must_be_above_last_trade_price :
      CxlRejectReason
  invalid_tick_size invalid_qty invalid_min_qty intercepted : CxlRejectReason

unfoldable pub cxl_reject_reason_to_string : CxlRejectReason → String
cxl_reject_reason_to_string CxlRejectReason.none = "NONE"
cxl_reject_reason_to_string CxlRejectReason.unknown = "UNKNOWN"
cxl_reject_reason_to_string CxlRejectReason.market_closed = "MARKET_CLOSED"
cxl_reject_reason_to_string CxlRejectReason.market_halted = "MARKET_HALTED"
cxl_reject_reason_to_string CxlRejectReason.preopen = "PREOPEN"
cxl_reject_reason_to_string CxlRejectReason.order_not_found = "ORDER_NOT_FOUND"
cxl_reject_reason_to_string CxlRejectReason.invalid_display_qty = "INVALID_DISPLAY_QTY"
cxl_reject_reason_to_string CxlRejectReason.iceberg_request_on_non_iceberg =
    "ICEBERG_REQUEST_ON_NON_ICEBERG"
cxl_reject_reason_to_string CxlRejectReason.non_iceberg_request_on_iceberg =
    "NON_ICEBERG_REQUEST_ON_ICEBERG"
cxl_reject_reason_to_string CxlRejectReason.order_type_mismatch = "ORDER_TYPE_MISMATCH"
cxl_reject_reason_to_string CxlRejectReason.time_in_force_mismatch = "TIME_IN_FORCE_MISMATCH"
cxl_reject_reason_to_string CxlRejectReason.price_cant_be_below_stop_price =
    "PRICE_CANT_BE_BELOW_STOP_PRICE"
cxl_reject_reason_to_string CxlRejectReason.price_cant_be_above_stop_price =
    "PRICE_CANT_BE_ABOVE_STOP_PRICE"
cxl_reject_reason_to_string CxlRejectReason.stop_price_must_be_below_last_trade_price =
    "STOP_PRICE_MUST_BE_BELOW_LAST_TRADE_PRICE"
cxl_reject_reason_to_string CxlRejectReason.stop_price_must_be_above_last_trade_price =
    "STOP_PRICE_MUST_BE_ABOVE_LAST_TRADE_PRICE"
cxl_reject_reason_to_string CxlRejectReason.invalid_tick_size = "INVALID_TICK_SIZE"
cxl_reject_reason_to_string CxlRejectReason.invalid_qty = "INVALID_QTY"
cxl_reject_reason_to_string CxlRejectReason.invalid_min_qty = "INVALID_MIN_QTY"
cxl_reject_reason_to_string CxlRejectReason.intercepted = "INTERCEPTED"

pub data MessageType : Type 0 where
  unknown new_order_single order_cancel_request order_replace_request execution_report : MessageType
  order_cancel_reject heartbeat test_request re_send_request reject md_subscription : MessageType
  md_unsubscription : MessageType

-- The underlying value of an enumerator.
unfoldable pub message_type_code : MessageType → ℕ
message_type_code MessageType.unknown = 0
message_type_code MessageType.new_order_single = 1
message_type_code MessageType.order_cancel_request = 2
message_type_code MessageType.order_replace_request = 3
message_type_code MessageType.execution_report = 4
message_type_code MessageType.order_cancel_reject = 5
message_type_code MessageType.heartbeat = 6
message_type_code MessageType.test_request = 7
message_type_code MessageType.re_send_request = 8
message_type_code MessageType.reject = 9
message_type_code MessageType.md_subscription = 10
message_type_code MessageType.md_unsubscription = 11

pub data SessionRejectReason : Type 0 where
  none already_logged_in not_logged_in invalid_session_id unknown : SessionRejectReason

unfoldable pub session_reject_reason_to_string : SessionRejectReason → String
session_reject_reason_to_string SessionRejectReason.none = "NONE"
session_reject_reason_to_string SessionRejectReason.already_logged_in = "ALREADY_LOGGED_IN"
session_reject_reason_to_string SessionRejectReason.not_logged_in = "NOT_LOGGED_IN"
session_reject_reason_to_string SessionRejectReason.invalid_session_id = "INVALID_SESSION_ID"
session_reject_reason_to_string SessionRejectReason.unknown = "UNKNOWN"

pub data BusinessRejectReason : Type 0 where
  unknown unknown_security_id duplicate_request_id : BusinessRejectReason

unfoldable pub business_reject_reason_to_string : BusinessRejectReason → String
business_reject_reason_to_string BusinessRejectReason.unknown = "UNKNOWN"
business_reject_reason_to_string BusinessRejectReason.unknown_security_id = "UNKNOWN_SECURITY_ID"
business_reject_reason_to_string BusinessRejectReason.duplicate_request_id = "DUPLICATE_REQUEST_ID"
