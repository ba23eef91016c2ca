-- ===== src/Events/Terms.antt =====
-- `EventAccessService.registration_terms` and `cancellation_terms`
-- (apps/api/src/talaqi/events/access_service.py). The row locks that both take are not modelled: a
-- call runs alone.
use community_platform.Base.{
  ℕ, Bool, true, false, ◌&&◌, not, Option, none, some, List, find?, ◌==◌, is_some, holds,
  if◌then◌else◌, Result, ok, err,
}
use community_platform.Errors.{Error, not_found}
use community_platform.Events.{
  RegistrationMethod, EventStatus, club, independent, public, private_link, Event,
  RegistrationTerms, CancellationTerms,
}

-- What the clubs module and the private-link table answer.
pub record Access : Type 0 where
  -- whether `require_registration_available` returns for the club
  pub registration_available : ℕ → Bool
  -- `authorize_registration_link event hash now`
  pub authorize_registration_link : ℕ → ℕ → ℕ → Bool

unfoldable pub get : List Event → ℕ → Option Event
get events event_id = find? (λ e. e.id == event_id) events

unfoldable pub is_published : EventStatus → Bool
is_published EventStatus.published = true
is_published _ = false

-- the club of an event that a club owns takes registrations
unfoldable pub club_allows : Access → Event → Bool
club_allows access event = elim event.ownership_type [
  | club ↦ holds access.registration_available event.club_id
  | independent ↦ true
]

-- a private event wants a link that is authorised
unfoldable pub link_allows : Access → Event → Option ℕ → ℕ → Bool
link_allows access event private_link_hash now = elim event.visibility [
  | public ↦ true
  | private_link ↦ holds (λ h. access.authorize_registration_link event.id h now) private_link_hash
]

terms_of :
    ℕ → Option ℕ → Option ℕ → Option RegistrationMethod → Option ℕ → Result Error RegistrationTerms
terms_of id (some start_at) capacity (some method) minutes = ok (record {
  id = id;
  start_at = start_at;
  capacity = capacity;
  method = method;
  cash_expiry_minutes = minutes;
})
terms_of id _ capacity _ minutes = err not_found

unfoldable pub registration_terms_of :
    Access → Option Event → Option ℕ → ℕ → Result Error RegistrationTerms
unfolding is_published club_allows link_allows terms_of
registration_terms_of access none private_link_hash now = err not_found
registration_terms_of access (some event) private_link_hash now =
    if is_published event.status
      && not (is_some event.suspended_at)
      && club_allows access event
      && link_allows access event private_link_hash now
    then terms_of event.id event.start_at event.capacity event.registration_method
        event.cash_expiry_minutes
    else err not_found

unfoldable pub registration_terms :
    Access → List Event → ℕ → Option ℕ → ℕ → Result Error RegistrationTerms
unfolding get registration_terms_of
registration_terms access events event_id private_link_hash now =
    registration_terms_of access (get events event_id) private_link_hash now

cancellable :
    Event → Option ℕ → Option RegistrationMethod → Option ℕ → Result Error CancellationTerms
cancellable event (some start_at) (some method) (some cutoff) = ok (record {
  id = event.id;
  start_at = start_at;
  capacity = event.capacity;
  method = method;
  cash_expiry_minutes = event.cash_expiry_minutes;
  cancellation_cutoff_minutes = cutoff;
})
cancellable event _ _ _ = err not_found

unfoldable pub cancellation_terms_of : Option Event → Result Error CancellationTerms
unfolding is_published cancellable
cancellation_terms_of none = err not_found
cancellation_terms_of (some event) =
    if is_published event.status
    then cancellable event event.start_at event.registration_method
        event.cancellation_cutoff_minutes
    else err not_found

unfoldable pub cancellation_terms : List Event → ℕ → Result Error CancellationTerms
unfolding get cancellation_terms_of
cancellation_terms events event_id = cancellation_terms_of (get events event_id)
