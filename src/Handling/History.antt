-- ===== src/Handling/History.antt =====
-- The history of handling events: handling/entities/handling-history.entity.ts.
use vz.Common.{◌≡◌, refl, ◌⊎◌, inl, inr, none, some, [], ◌∷◌}
use vz.Common.Sort.{Latest, last?-sort_by}
use vz.Handling.{HandlingEvent, HandlingHistory, most_recently_completed_event}

-- The most recently completed event is null for the empty history only. Otherwise it is a member
-- of the history, no member has a later date, and every member behind it in the history has an
-- earlier date, so of several events of one date it is the last.
pub most_recently_completed_event_lem :
    (h : HandlingHistory)
    → ((h ≡ []) × (most_recently_completed_event h ≡ none))
      ⊎ ((e : HandlingEvent) × (most_recently_completed_event h ≡ some e)
          × Latest (λ x. x.created_at) h e)
unfolding most_recently_completed_event
most_recently_completed_event_lem [] = inl (refl, refl)
most_recently_completed_event_lem (e ∷ es) = inr (last?-sort_by (λ x. x.created_at) e es)
