-- ===== src/Tail/Tests.antt =====
-- internal/tail/hub.go: the theorems about subscribers on concrete values.
use logdoc.Common.{◌≡◌, true, none, List, [], ◌∷◌, ◌++◌, arith}
use logdoc.Samples.{plain, failed, billed}
use logdoc.Query.Plan.{Plan}
use logdoc.Tail.Hub.{Hub, Subscriber, find_sub}
use logdoc.Tail.Hub.Stream.{SubEvent, offered, received, cancelled, sub_run, wanted, Thinned}
use logdoc.Tail.Hub.Stream.Received.{sub_run-Thinned}
use logdoc.Tail.Hub.Isolation.{
  HubEvent, appended, subscribed, cancel_of, receive_of, hub_run, project, after_events,
  hub_run-find_sub,
}

abbrev all_of : Plan
all_of = record {
  tenant_id = [];
  apps = [];
  srcs = [];
  levels = [];
  from = none;
  to = none;
  field_eq = [];
  search = [];
  limit = 100;
}

abbrev reader : Subscriber
reader = record { id = 0; plan = all_of; ch = []; active = true }

abbrev session : List SubEvent
session = offered failed ∷ received ∷ offered billed ∷ cancelled ∷ offered failed ∷ received ∷ []

sub_run-Thinned_example :
    Thinned
      ((sub_run plain session reader).1 ++ (sub_run plain session reader).0.ch)
      (reader.ch ++ wanted plain reader session)
sub_run-Thinned_example = sub_run-Thinned plain session reader

abbrev hub : Hub
hub = record { subs = record reader { id = 1 } ∷ reader ∷ []; next_id = 2 }

abbrev traffic : List HubEvent
traffic = appended failed ∷ receive_of 0 ∷ cancel_of 1 ∷ subscribed all_of ∷ appended billed ∷ []

hub_run-find_sub_example :
    find_sub 0 (hub_run plain traffic hub).subs
    ≡ after_events plain (project 0 traffic) (find_sub 0 hub.subs)
hub_run-find_sub_example = hub_run-find_sub plain traffic hub 0 (omega arith)
