-- ===== src/Common/MarketData.antt =====
-- common/market_data.hpp: the entries of the market-data frames.
use slick_sim.Prelude.{ℕ, Bool, String}
use slick_sim.Common.Enums.{Side}

pub data MdUpdateAction : Type 0 where
  action_new action_change action_delete : MdUpdateAction

-- Bits of the `flags` byte: 1 is F_IS_SNAPSHOT, 2 is F_END_EVENT, 4 is F_NOT_IN_BOOK.
pub record UpdateFlags : Type 0 where
  pub is_snapshot : Bool
  pub end_event : Bool
  pub not_in_book : Bool

pub record MdLevel : Type 0 where
  pub event_time : ℕ
  pub seq_num : ℕ
  pub price : ℕ
  pub qty : ℕ
  pub num_orders : ℕ
  pub level_index : ℕ
  pub update_action : MdUpdateAction
  pub flags : UpdateFlags
  pub side : Side

pub record MdOrder : Type 0 where
  pub order_id : ℕ
  pub event_time : ℕ
  pub priority : ℕ
  pub price : ℕ
  pub qty : ℕ
  pub side : Side
  pub update_action : MdUpdateAction

pub record MdTrade : Type 0 where
  pub trade_id : ℕ
  pub event_time : ℕ
  pub seq_num : ℕ
  pub price : ℕ
  pub qty : ℕ
  pub flags : UpdateFlags
  pub side : Side

pub data MdSubscriptionRejectReason : Type 0 where
  none unknown_contract market_closed : MdSubscriptionRejectReason

unfoldable pub md_subscription_reject_reason_to_string : MdSubscriptionRejectReason → String
md_subscription_reject_reason_to_string MdSubscriptionRejectReason.none = "NONE"
md_subscription_reject_reason_to_string MdSubscriptionRejectReason.unknown_contract =
    "UNKNOWN_CONTRACT"
md_subscription_reject_reason_to_string MdSubscriptionRejectReason.market_closed = "MARKET_CLOSED"
