-- ===== src/Handling/Tests.antt =====
-- The history of handling events at concrete inputs.
use vz.Common.{◌≡◌, refl, some, [], ◌∷◌}
use vz.Common.Int.{pos}
use vz.Handling.{HandlingEventType, HandlingEvent, HandlingHistory, most_recently_completed_event}

abbrev travel : HandlingEvent
travel = record {
  id = 1;
  created_at = 100;
  latitude = pos 3139003;
  longitude = pos 101686855;
  provider_worker_id = 7;
  service_request_id = 5;
  type = HandlingEventType.start;
}

abbrev working : HandlingEvent
working = record travel { id = 2; created_at = 200; type = HandlingEventType.in_progress }

-- Two events of one date, and one of an earlier date behind them.
abbrev history : HandlingHistory
history = travel ∷ record working { id = 3 } ∷ working ∷ record travel { id = 4 } ∷ []

last_of_ties : most_recently_completed_event history ≡ some working
unfolding most_recently_completed_event
last_of_ties = refl
