-- ===== src/Lib.antt =====
-- Registrations for events of the community platform (apps/api/src/talaqi): members register for an
-- event, hold one of its seats or wait in its queue, pay in cash before a deadline, and cancel;
-- seats that are given back go to the queue. Beside them stand the outbox that announces the
-- changes, the idempotency keys of mutating requests, and the limit on their rate; the members of
-- clubs and their owners; and the cases in which moderators act on what is reported.
--
-- The parts and their files:
--   Base          tests, lists and results that the other modules share
--   Time          datetimes with and without a time zone
--   Identifiers   db/identifiers.py: generate_uuid7 and validate_uuid7, at given draws
--   Errors        the exceptions that the services raise, a constructor for each code
--   Audit         audit/models.py and AuditService.record (audit/service.py)
--   Authorization security/authorization.py: the checks on a principal
--   Events        events/models.py, events/access_models.py; Events/Terms has registration_terms and
--                 cancellation_terms of EventAccessService (events/access_service.py)
--   Clubs         clubs/membership_models.py and the tables that the memberships work on; below it:
--     Repository  the statements of MembershipRepository (clubs/membership_repository.py); Roles has
--                 those on roles, ownership and closure
--     Service     MembershipService (clubs/membership_service.py): join, leave, approve, reject,
--                 change_role, transfer, close; their audit events are in AuditEvents
--     Requests    the services under a sequence of requests; Steps reads every call as steps of a
--                 state machine; Ownership, Shut and Joining have the proofs
--   Moderation    moderation/models.py and the tables that the moderation works on; below it:
--     Deadlines   acknowledgement_deadline and what it is for (moderation/service.py)
--     Repository  the statements of ModerationRepository (moderation/repository.py); Targets has
--                 apply_target_action, Cases record_case_action and record_case_workflow
--     Service     submit_report, act and transition_case of ModerationService (moderation/service.py),
--                 with the audit events of AuditEvents
--     Requests    the services under a sequence of requests; Effects says what each write does, Calls
--                 what each call does; Lifecycle, Targets, Acting and Repeats have the proofs
--   Outbox        the rows of talaqi.outbox_events (outbox/models.py); Outbox/Enqueue has enqueue, which
--                 the clubs and the moderation publish through; Outbox/Delivery has the claims
--                 of OutboxRepository (outbox/repository.py) and the retries of
--                 TransactionalOutboxWorker (apps/worker/src/talaqi_worker/outbox.py); Leases and Once
--                 have the proofs
--   Idempotency   platform/idempotency.py: the validation of an acquisition; Idempotency/Claims has
--                 the repository and the coordinator
--   RateLimits    security/rate_limit.py: InMemoryRateLimiter
--   Registrations registrations/models.py; below it:
--     Database    the tables, with the constraints of
--                 database/migrations/versions/0009_registration_state_machine.py and the unique
--                 indexes, and the insertions that they may refuse
--     Commands    _normalize_command, _mutation and the payload of _command_hash (service.py)
--     Repository  the queries of RegistrationRepository (repository.py), Writes its updates
--     Transitions RegistrationTransitionService, Creation RegistrationCreationService,
--     Promotion   PromotionService, Seats the cancellation and cash services of service.py and
--                 CashExpiryProcessor of expiry.py
--     Requests    the services under a sequence of requests, each one a transaction
--   Below Transitions, Creation, Promotion, Seats and Requests stand the proofs about them; Effects says what
--   each write does to the tables, Validity what the constraints mean, Capacity counts seats, Steps
--   reads every call as steps of a state machine.
--
-- A transaction is a function from the tables to an exception or to a value and new tables; one
-- that raises leaves the tables that it started from. The clock of the database and what is
-- generated in a call are read from the state. SHA-256, the identifiers that are drawn, the clubs
-- that an event is read with, the private links and the eligibility of members are parameters
-- (Services and Access). The `while` loop of a promotion takes fuel, one round more than members wait for the event; that of a deadline
-- takes four rounds, as many days as hold two business days.
--
-- Not modelled: row locks and interleaved transactions (each request runs alone, as behind the
-- locks on the event's row), the screening and the size of audit metadata, the SQL text itself
-- (each statement is read as a function on the tables), routes and schemas, and the other parts of
-- the platform: identity beyond what the checks on a principal read, media, the creation and editing
-- of clubs, profiles, communications, settings, the web application and the workers' delivery loops.
pub mod Base
pub mod Audit
pub mod Authorization
pub mod Clubs
pub mod Errors
pub mod Events
pub mod Idempotency
pub mod Identifiers
pub mod Moderation
pub mod Outbox
pub mod RateLimits
pub mod Registrations
pub mod Time
