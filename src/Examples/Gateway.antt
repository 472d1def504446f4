-- ===== src/Examples/Gateway.antt =====
-- A gateway's waiters, ids, sent messages and order store, and an instrument's trade credits.
use slick_sim.Prelude.{
  ℕ, ◌≡◌, ◌<◌, ◌%◌, ◌^◌, refl, arith, String, Bool, true, false, List, [], ◌∷◌, Option, none, some,
  eqb, length, string_keyed,
}
use slick_sim.Common.Enums.{Side, OrderStatus, ExecType}
use slick_sim.Common.Messages.{OrderResponse}
use slick_sim.OrderGateway.PendingResponses.{
  adds, dispatches, expires, abandons, no_responses, fates, given_out, fates-run,
}
use slick_sim.OrderGateway.PendingResponses.{Call as PendingCall, run as run_pending}
use slick_sim.OrderGateway.ClOrdIdIndex.{
  Call, claims_id, releases_id, assigns_id, forgets_id, claim, run,
}
use slick_sim.OrderGateway.ClOrdIdIndex.Usage.{AllUsed, run_empty-AllUsed}
use slick_sim.OrderGateway.ClOrdIdIndex.Exclusion.{claim_exclusive}
use slick_sim.OrderGateway.RetransmitRing.{find as find_sent}
use slick_sim.OrderGateway.RetransmitRing.Sent.{sent_all, recent, find-sent_all}
use slick_sim.OrderGateway.OrderStore.{drain, find, no_orders}
use slick_sim.OrderGateway.OrderStore.Projection.{history, fills, trades, find-drain, fills-drain}
use slick_sim.Exchange.TradedCredit.{no_credits}
use slick_sim.Exchange.TradedCredit.Refinement.{
  Happening, print, level_update, offsets, expected, offsets-no_credits,
}
use slick_sim.Examples.Matching.{slot}

abbrev waits_and_reports : List (PendingCall ℕ)
waits_and_reports =
    adds (λ r. eqb r 5) ∷ adds (λ r. eqb r 6) ∷ dispatches 6 ∷ expires 2 ∷ abandons 1 ∷ []

fates-run_example :
    let p = run_pending waits_and_reports no_responses in fates 2 p ≡ given_out 2 p.next_id
fates-run_example = fates-run waits_and_reports 2

abbrev calls : List (Call String)
calls = claims_id "a" 0 ∷ assigns_id "b" 4 ∷ forgets_id "b" 4 ∷ releases_id "c" ∷ []

run_empty-AllUsed_example : AllUsed 4 (run calls [])
run_empty-AllUsed_example = run_empty-AllUsed calls (omega arith)

abbrev between : List (Call String)
between = claims_id "a" 3 ∷ assigns_id "b" 4 ∷ releases_id "c" ∷ []

claim_exclusive_example : (claim "a" 3 (run between (claim "a" 0 []).0)).1 ≡ false
unfolding claim slick_sim.OrderGateway.ClOrdIdIndex.claim_at slick_sim.Prelude.lookup
claim_exclusive_example = claim_exclusive "a" [] between 3 refl (tt, (refl, (refl, tt)))

abbrev messages : List ℕ
messages = 30 ∷ 20 ∷ 10 ∷ []

find-sent_all_example : find_sent 2 (sent_all 0 2 messages) ≡ recent 2 2 messages
find-sent_all_example = find-sent_all 0 2 2 messages (omega arith) (omega arith)

abbrev report : OrderResponse
report = record slot {
  identity = record { symbol = "BTC"; user_id = "u"; client_order_id = "c"; order_id = "o" };
  exec_type = ExecType.trade;
  qty = 9;
  leaves_qty = 4;
}

abbrev other_report : OrderResponse
other_report = record slot {
  identity = record { symbol = "BTC"; user_id = "u"; client_order_id = "d"; order_id = "p" };
}

abbrev reports : List OrderResponse
reports = report ∷ other_report ∷ report ∷ []

find-drain_example : find "o" (drain reports no_orders) ≡ history "o" reports (find "o" no_orders)
find-drain_example = find-drain "o" reports no_orders refl

fills-drain_example : fills (find "o" (drain reports no_orders)) ≡ trades "o" reports % 2 ^ 32
fills-drain_example = fills-drain "o" reports refl

abbrev happenings : List Happening
happenings =
    print Side.buy 100 5 10
    ∷ print Side.buy 100 2 12
    ∷ level_update Side.buy 100 11
    ∷ level_update Side.sell 100 9
    ∷ level_update Side.buy 100 9
    ∷ []

offsets-no_credits_example : offsets happenings no_credits ≡ expected happenings []
offsets-no_credits_example = offsets-no_credits happenings

expected_run : expected happenings [] ≡ 2 ∷ 0 ∷ 2 ∷ []
unfolding expected slick_sim.Common.Enums.side_code
expected_run = refl
