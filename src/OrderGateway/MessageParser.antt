-- ===== src/OrderGateway/MessageParser.antt =====
-- order_gateway/message_parser.cpp: the words and codes that every text protocol shares.
use slick_sim.Prelude.{
  ℕ, String, Bool, ◌||◌, List, [], ◌∷◌, Option, none, some, if◌then◌else◌, ◌==◌, string_keyed,
}
use slick_sim.Common.Enums.{Side, OrderType, TimeInForce}

unfoldable pub parse_side : String → Side
parse_side side_str =
    if (side_str == "1") || ((side_str == "B") || ((side_str == "BUY") || (side_str == "buy")))
    then Side.buy
    else if (side_str == "2")
        || ((side_str == "S") || ((side_str == "SELL") || (side_str == "sell")))
    then Side.sell
    else Side.buy

unfoldable pub parse_order_type : String → OrderType
parse_order_type type_str =
    if (type_str == "1") || ((type_str == "MARKET") || (type_str == "market"))
    then OrderType.market
    else if (type_str == "2") || ((type_str == "LIMIT") || (type_str == "limit"))
    then OrderType.limit
    else if (type_str == "3") || ((type_str == "STOP") || (type_str == "stop"))
    then OrderType.stop
    else if (type_str == "4") || ((type_str == "STOP_LIMIT") || (type_str == "stop_limit"))
    then OrderType.stop_limit
    else OrderType.market

unfoldable pub parse_time_in_force : String → TimeInForce
parse_time_in_force tif_str =
    if (tif_str == "0") || ((tif_str == "DAY") || (tif_str == "day"))
    then TimeInForce.day
    else if (tif_str == "1") || ((tif_str == "GTC") || (tif_str == "gtc"))
    then TimeInForce.good_till_cancel
    else if (tif_str == "3") || ((tif_str == "IOC") || (tif_str == "ioc"))
    then TimeInForce.immediate_or_cancel
    else if (tif_str == "4") || ((tif_str == "FOK") || (tif_str == "fok"))
    then TimeInForce.fill_or_kill
    else TimeInForce.day

-- The number of the enumerator in decimal.
unfoldable pub side_to_string : Side → String
side_to_string Side.buy = "0"
side_to_string Side.sell = "1"
side_to_string Side.unknown_side = "2"

pub data ProtocolType : Type 0 where
  fix sbe json binary : ProtocolType

-- The parser that is made, by its protocol; `none` is nullptr.
unfoldable pub create_parser : ProtocolType → Option ProtocolType
create_parser ProtocolType.fix = some ProtocolType.fix
create_parser ProtocolType.sbe = none
create_parser ProtocolType.json = some ProtocolType.json
create_parser ProtocolType.binary = none

-- `can_handle` is each parser's own test of the bytes.
unfoldable pub create_parser_from_data :
    (can_handle : ProtocolType → List ℕ → Bool) → List ℕ → Option ProtocolType
create_parser_from_data can_handle [] = none
create_parser_from_data can_handle (b ∷ bs) = some (
    if can_handle ProtocolType.json (b ∷ bs)
    then ProtocolType.json
    else if can_handle ProtocolType.fix (b ∷ bs)
    then ProtocolType.fix
    else ProtocolType.json)
