-- ===== src/Lib.antt =====
-- The backend of the Daeil scholarship foundation's site, in parts that decide what members, donors
-- and administrators may do. Each part is a Go service on tables of MariaDB or on go-cache; the
-- handlers call one service per request, and jobs call them by the clock.
--
-- Parts and files:
-- SocialLink: the store of social links that await their confirmation,
-- backend/internal/service/social_link_token_store.go. Data holds its types, SocialLink the methods,
-- one function each (Begin is begin_lease, ConsumeWithPhoto is consume_with_photo; the timer of an
-- upload is expire), Discard the retries of a discarded upload. Uploads are blocks on a heap that
-- entries reach by address, as the copies of an entry share a pointer. Invariant, Steps and Traces
-- follow any sequence of calls and timers; Held, Exclusion, Leases and Exclusive follow a lease,
-- Photos the uploads, Release the return of a lease. The cache is a parameter: GoCache states
-- the documented laws of go-cache, and GoCache/Table is a table that has them.
-- AppUpdate: the policy for app updates, backend/internal/service/app_update_evaluator.go.
-- Validation is app_update_policy_validation.go, Gate is client_app_headers.go and
-- app_version_gate.go of backend/internal/middleware, Save is SavePolicy of
-- app_update_policy_service.go on the transaction of repository/app_update_policy_repo.go.
-- Phone: the proof that an applicant owns a phone number,
-- backend/internal/service/phone_verification_service.go. Table is its table,
-- repository/phone_verification_repo.go. Trace has the sequences of calls; Events and its children
-- say which of six changes of the table a call is; Steps, Attempts, Grants and Throttle draw the
-- invariants from these changes.
-- Billing: the daily charge of subscriptions, backend/internal/job/subscription_billing.go. Data is
-- its tables, Dates the next date (service/subscription_activator.go), Steps and Once the runs.
-- Messages: direct messages, backend/internal/service/message_service.go with
-- message_content_filter.go, on repository/message_repo.go. Replay and Notices follow several sends.
-- Paging is the list of conversations by pages, Falling its order, Walk one page after the other.
-- Realtime: the hub that hands events to open streams, backend/internal/realtime/hub.go. Streams has
-- its callers, handler/realtime_handler.go, service/message_notifier.go and
-- notice_published_notifier.go, as a sequence of steps. Safety and its children follow the channels;
-- Log compares the hub with a log of all that was published, Replay is a stream that is opened again.
-- Revocation: the worker that revokes connections at Kakao and Apple,
-- backend/internal/job/social_revocation_worker.go. Data has the outbox and the statements of
-- repository/social_revocation_repo.go and auth_repo.go. Once follows the provider's agreements over
-- any sequence of claims and entries, Failures the attempts that fail.
-- Push: push notifications, backend/internal/service/push_delivery.go. Delivery is one item with its
-- guards and retries, Broadcast the fan-out of a notice (push_notice_broadcast.go), Shutdown the
-- protocol of stopping; Guards, Private and FanOut prove what they are named for.
-- Templates: the texts of notifications that administrators edit, backend/internal/model/
-- notification_template.go and backend/internal/service/notification_template_service.go. Scan has
-- the tokens and their substitution, Validation the checks, Service the choice of a text, Saving the
-- edits of administrators (repository/notification_template_repo.go); Filled, Rendering and Shown
-- prove what a rendering holds.
-- Prelude has what these share: tests, lists over the native numbers, integers, and Go's texts as
-- lists of code points.
--
-- How state is modelled: a store is a record, a method takes it and returns its result with the new
-- one. A call of the database that can fail has a Boolean that says whether it does, so the error
-- paths are those of the source; a transaction that fails leaves the store as it was. Times are
-- numbers that come with the call, in nanoseconds since some origin. Where the
-- source holds a mutex (SocialLink, Realtime) a method is one step, and calls of several users are
-- sequences of such steps, in any order. Messages, Revocation, Push and Templates take no lock, or one
-- for a part: their concurrent calls are split into the steps between which others come, as far as a
-- theorem is about them. Phone and Billing take none, and their calls run one after the other: what
-- happens when they overlap is not modelled.
--
-- Bounds and fuel: the loops of the source run over lists. Only the walk through pages and
-- the fan-out of a notice have fuel, the number of pages, and their theorems say how many are enough.
-- Integers of 64 bits wrap where the source can reach the bound (the number of a lease, the generation
-- of a template); build numbers, amounts and keys are read as integers of 64 bits (parse_int) and only compared. The number of a lease
-- returns after 2^64 leases, and the theorems about leases suppose fewer.
--
-- Parameters: go-cache, the JSON codec of a policy with its round trip, SHA-256, the random source
-- (what it draws comes with the call), the rendered text message, the encoder of EUC-KR, the payment
-- provider, the tables of Unicode for lower case and for the normal form. The SQL of a query is modelled as the selection
-- and the update that it states, on the rows of its table; collations are not, so keys are compared
-- exactly.
--
-- Not modelled: the handlers, which decode and encode; the other services of backend/internal/service;
-- the wiring under backend/cmd; the web and administration sites.
pub mod Prelude
pub mod GoCache
pub mod SocialLink
pub mod AppUpdate
pub mod Phone
pub mod Billing
pub mod Messages
pub mod Realtime
pub mod Revocation
pub mod Push
pub mod Templates
