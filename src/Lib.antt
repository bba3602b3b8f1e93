-- ===== src/Lib.antt =====
-- The Shearix platform: appointments of barber shops, by services that share one platform module.
--
-- A shop is a tenant. The tenant service keeps its settings and host names; the barber service its
-- branches and barbers; the catalog service what can be booked, with a length and two buffers; the
-- scheduling service the working hours of each barber, the exceptions and the blocked periods, from
-- which it computes the slots of a day; the appointment service the bookings. A booking asks the
-- barber, catalog and scheduling services, and then runs one transaction, whose database constraints
-- are the last word. The scheduling service asks the appointment service what is occupied.
--
-- The parts and their files:
--   Shared: lists, integers, texts, results and actions that all parts use.
--   GoTime: Go's time.Time and time.Duration. An instant is an integer count of nanoseconds from the
--     zero time; a duration is an int64, whose products and sums wrap around (`wrap64`).
--   Platform: platform/tenantctx, platform/adminauth, the data of platform/schedulingdeps, and the
--     functions of Go's library that the services call, as a record of functions (Library).
--   Appointment.Store: the tables of services/appointment-service/migrations with their constraints,
--     and WithTenantTx of platform/db/tenant.go. A transaction is a function of the tables; each of
--     its statements may fail, which the argument `Env` says, and an error rolls it
--     back; after a failed commit the tables may be the new ones or the old ones.
--   Appointment.Repository, Appointment.Lifecycle, Appointment.Queries: services/appointment-service/
--     internal/repository/repository.go: Replay, Create and appendEvent; Transition and Reschedule;
--     Get, List, ListForCustomer, GetForCustomer and Occupancy.
--   Appointment.Consistent: what every transaction keeps, and the tables that can be reached.
--   Appointment.Lifecycle.Refined: the abstract machine of one booking's state.
--   Appointment.Application: services/appointment-service/internal/application/application.go:
--     BookingService (Booking), LifecycleService (Changes) and QueryService (Reads). Two transactions
--     of one command have an argument `meanwhile` between them, what other requests do to the tables.
--   Appointment.Outbox: the outbox functions of the migrations, their callers in repository.go, and
--     publishBatch and publishOne of internal/outbox/publisher.go.
--   Scheduling.Wall, Scheduling.Availability: services/scheduling-service/internal/service/
--     availability.go: ValidIntervals and parseWall; IntervalsForDate and Available.
--   Scheduling.Application: services/scheduling-service/internal/application/application.go over an
--     interface of its repository.
--   Tenant: services/tenant-service/internal/service/service.go: Settings, Hostname and Service.
--   Catalog.Service and Barber.Service: internal/application/service.go of services/catalog-service
--     and services/barber-service.
--   Auth: services/auth-service. Domain is internal/domain/auth.go; Store the tables of its migrations;
--     Repository, with Sessions, internal/repository/repository.go; Service, with Staff,
--     internal/service/service.go. A request is a function of the tables and of the messages that the
--     mail provider accepted (`World`). Requests puts requests in a row.
--   Notification: services/notification-service. Store is internal/domain/domain.go and the table of its
--     migrations; Repository internal/repository/repository.go with the functions that claim and
--     finish notices; Consumer and Worker internal/consumer/consumer.go and internal/worker/worker.go.
--     Final and Redelivered are about sent notices and messages that are delivered again.
--   Platform.Transactions: WithTenantTx of platform/db/tenant.go over any store, for these two services,
--     with rules (Keeping) for what an operation keeps and ensures. Platform.Email: SendWithRetry of
--     platform/email/sender.go.
--   Tests: runs at concrete inputs.
--
-- Fuel: the inner loop of Available has none in the source, and does not end if the step is not
-- positive. `scan` counts rounds: `rounds` of an interval are the distance from the end of its first
-- occupied span to the end of the interval, divided by the step, and two more. They are enough for
-- every positive step, and an answer `none` stands for a loop that does not end.
--
-- Not modelled: HTTP handlers, routing, metrics, logging, tracing, configuration and start-up, which
-- are input and output; the SQL of the repositories of the tenant, barber, catalog and scheduling
-- services, which are interfaces here; the start, the readiness and the
-- retention cleanup of the outbox publisher, the loops of the notification service around one message
-- and one round, the customer service and the gateway. Zone data, mail addresses, digests, JSON, UUID texts
-- and IP addresses are computed by libraries, and are arguments of the definitions that use them.
-- bcrypt, random bytes, base64, the broker and the mail provider are arguments too. Two requests to the
-- auth service do not interleave, a commit of the auth and notification services that fails is taken as
-- not carried out, and a worker that claims notices meets no lock of another one.
-- The order of rows that a query without ORDER BY returns is that of the table, the newest first.
pub mod Shared
pub mod GoTime
pub mod Platform
pub mod Scheduling
pub mod Appointment
pub mod Auth
pub mod Barber
pub mod Catalog
pub mod Notification
pub mod Tenant
pub mod Tests
