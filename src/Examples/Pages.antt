-- ===== src/Examples/Pages.antt =====
-- The theorems about the hub of internal/api/ws.go at concrete steps.
use gi_con_mon.Common.{String, ◌≡◌, refl, some, [], ◌∷◌, List}
use gi_con_mon.Api.Hub.{Hub, new_hub, subscribe}
use gi_con_mon.Api.Hub.Queues.{Step, joins, sends, takes, step_all}
use gi_con_mon.Api.Hub.Delivery.{
  queue_of, Balanced, taken_all, accepted_all, delivered_in_order, queue_in,
}

-- Two messages are sent, and one of them is taken before another client joins.
abbrev traffic : List (Step String)
traffic = sends "down" ∷ takes 0 ∷ joins ∷ sends "up" ∷ []

abbrev one_page : Hub String
one_page = (subscribe new_hub).0

empty_queue : queue_of 0 one_page ≡ some []
unfolding queue_of subscribe new_hub queue_in
empty_queue = refl

delivered_in_order_example :
    Balanced 0
      (step_all traffic one_page)
      (taken_all 0 traffic one_page)
      []
      (accepted_all 0 traffic one_page)
delivered_in_order_example =
    delivered_in_order 0 traffic one_page [] (tt, (tt, (tt, (tt, tt)))) empty_queue
