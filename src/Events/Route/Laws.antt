-- ===== src/Events/Route/Laws.antt =====
-- indexer/src/indexer.ts, `routeEvent`: the registry and the routing agree.
use circleup.Prelude.{
  String, Bool, true, false, Option, none, some, not, ◌||◌, List, [], ◌∷◌, ◌≡◌, ◌≢◌, refl, str_eq,
  arith, is_some, all, get_elem?,
}
use circleup.Events.Registry.{
  EventSchema, Handling, projected, ignored, event_schemas, lookup_schema, or_earlier, slashed,
  family_text, get_event_schema,
}
use circleup.Events.Classify.{
  ClassifiableEvent, text_or_empty, EventClassification, is_projected, is_ignored, unknown,
  incompatible, classify_event,
}
use circleup.Events.Classify.Laws.{IsSound, classify_event-IsSound}
use circleup.Events.Route.{
  HandlerName, quarantined_no_handler, route_event, route_classified, handler_of, or_quarantine,
}

abbrev is_projected_handling : Handling → Bool
is_projected_handling projected = true
is_projected_handling ignored = false

-- A schema that is projected has a handler.
abbrev covered : EventSchema → Bool
covered s = not (is_projected_handling s.handling) || is_some (handler_of s.family s.name)

event_schemas-covered : all covered event_schemas ≡ true
unfolding handler_of
event_schemas-covered = refl

or_earlier-all :
    (p : EventSchema → Bool) (later : Option EventSchema) (here : Bool) (t s : EventSchema)
    → ((u : EventSchema) → later ≡ some u → p u ≡ true)
    → p t ≡ true
    → or_earlier later here t ≡ some s
    → p s ≡ true
or_earlier-all p (some u) here t s h k e = h s e
or_earlier-all p none true t s h k e = ground (arith, k, e)
or_earlier-all p none false t s h k e = ground (arith, e)

pub lookup_schema-all :
    (p : EventSchema → Bool) (key : String) (schemas : List EventSchema) (s : EventSchema)
    → all p schemas ≡ true
    → lookup_schema key schemas ≡ some s
    → p s ≡ true
unfolding lookup_schema
lookup_schema-all p key [] s h e = ground (arith, e)
lookup_schema-all p key (t ∷ schemas) s h e =
    or_earlier-all p (lookup_schema key schemas)
      (str_eq (slashed (family_text t.family) t.name) key) t s
      (λ u f. lookup_schema-all p key schemas u (ground (arith, h)) f) (ground (arith, h)) e

registered-covered :
    (family name : String) (s : EventSchema)
    → get_event_schema family name ≡ some s
    → covered s ≡ true
unfolding get_event_schema
registered-covered family name s e =
    lookup_schema-all covered (slashed family name) event_schemas s event_schemas-covered e

or_quarantine-handled :
    (s t : EventSchema) (h : Option HandlerName)
    → is_some h ≡ true
    → some (or_quarantine s h) ≢ some (quarantined_no_handler t)
or_quarantine-handled s t none e = ground (arith, e)
or_quarantine-handled s t (some h) e = λ same. ground (arith, same)

route_classified-handled :
    (ev : ClassifiableEvent) (c : EventClassification) (t : EventSchema)
    → IsSound ev c
    → route_classified c ≢ some (quarantined_no_handler t)
unfolding route_classified
route_classified-handled ev (is_projected s v) t ((found, _, _, _, _), e) =
    or_quarantine-handled s t (handler_of s.family s.name) (
      ground (
        arith,
        registered-covered (text_or_empty (get_elem? ev.topics 0))
            (text_or_empty (get_elem? ev.topics 1)) s found,
        e,
      ))
route_classified-handled ev (is_ignored s v) t h = λ same. ground (arith, same)
route_classified-handled ev (unknown r) t h = λ same. ground (arith, same)
route_classified-handled ev (incompatible s r) t h = λ same. ground (arith, same)

-- No event is quarantined for want of a handler: every schema that the registry marks as projected
-- has one.
pub route_event_handled :
    (ev : ClassifiableEvent) (s : EventSchema) → route_event ev ≢ some (quarantined_no_handler s)
unfolding route_event
route_event_handled ev s e =
    route_classified-handled ev (classify_event ev) s (classify_event-IsSound ev) e
