-- ===== src/Lib.antt =====
-- ferventio-backend: the push backend's repositories, rate limiter, push socket and EventSub pipeline.
--
-- The backend registers app installations, signs their users in with Twitch, receives Twitch's EventSub
-- messages, and delivers notifications to the devices. Its handlers and workers call five repositories
-- (internal/domain/repositories.go). The model has the in-memory implementation of each; every
-- operation is a function from the store, its arguments and what it takes from outside (the times
-- of `time.Now()`, random bytes) to the new store and the result. A method holds the store's lock from
-- its start to its end, so a sequence of calls is an interleaving of the callers. Above them stand the
-- limits that a request passes, the sockets of the devices, and the way of an EventSub message from the
-- inbox through the queue and the rules of a registration into the outbox and to the device.
--
--   Base                    shared names; lists, texts, bits, sorting, pages, and Go's maps as association lists
--   Domain                  internal/domain: records, statuses, bounds and errors
--   Memory/Delivery         internal/storage/memory/delivery_store.go: Outbox (Enqueue, List,
--                           PendingForInstallation, MarkSent, MarkFailed, AckThrough, Ack,
--                           DeleteForInstallation), Inbox (EnqueueEventSub to ForgetEventSub), Channels
--                           (channel states); Run has every method as a call
--   Memory/Trim             the loop by which the outbox and the inbox make room
--   Memory/Settings         internal/storage/memory/sync_store.go: Put, Current, History, Restore
--   Memory/Audit            internal/storage/memory/audit_store.go: Append, List
--   Memory/Secrets          hashSecret, secureHashEqual (auth_store.go) and secureEqual (aliases.go)
--   Memory/Registrations    internal/storage/memory/store.go: Upsert to DeleteForAccount
--   Memory/Auth             internal/storage/memory/auth_store.go: Pending, Handoffs, Credentials, Sessions,
--                           Revocation; Vault has the sealing of tokens, Bounds/Run has every call
--   Application/RateLimit   internal/application/rate_limit.go: take and its clean-up; ClientIp has
--                           requestClientIP, Requests the handlers from rateLimitRequests to
--                           enforceInstallationRateLimit; Refill, Bounds and Gate are about them
--   Application/PushSocket  internal/application/push_socket.go: writeFrame and readTextWithDeadline, whose
--                           proofs are Frames and Reading; Hub has Attach, Detach, Send, Close
--   Application/EventSub    internal/application/eventsub.go: Values (fields of the event), Rules
--                           (ruleEnabled to containsMention), Routing (eventNotificationForRegistration),
--                           Queue (scheduleEventSub, the drainer, the workers)
--   Application/Dispatch    internal/application/delivery_dispatch.go, flushPending (push_socket.go) and
--                           processEventSubNotification (eventsub.go); Worker has handleQueuedEventSub
--   Application/Webhook     internal/application/eventsub.go: eventSubWebhook and the checks of a signature
--   Application/Audits      the record that the server's auditRecord is given
--   Tests                   the examples
--
-- A map is an association list in the order of one `range`; the statements hold for every list, so for
-- every order. `sort.Slice` is insertion sort: it is stable, which the code does not rely on. Times are
-- nanoseconds after the zero time and counters are natural numbers that do not wrap. `persistLocked`
-- returns nil in these stores, so what the code does after its failure has no model. The tokens of a
-- bucket are float64 numbers, by their bits; the arithmetic on them is a parameter. A socket's input is the
-- list of the bytes that the peer sends before its end, and a call reads the clock once.
--
-- Loops run over lists, with these bounds where they do not: the eviction of rate-limit keys has as
-- many rounds as there are buckets, each of which removes one; the loop that reads a socket runs for
-- a given number of rounds, and the model says when it still runs after them, since the code does not
-- bound it; the search for a mention has one more than the bytes of the text, and each moves on.
--
-- Parameters are what is not in the repository: the hash, the cipher and base64 with the laws that the
-- code relies on (a hash is not empty, what is sealed opens, and what is encoded decodes); the syntax
-- of addresses and prefixes (net and netip), Unicode's lower case, spaces, letters and digits, the format
-- of a number, times and JSON, float64 (of which one theorem uses that whole numbers are exact), random
-- tokens, and the sender of push messages.
--
-- Not modelled: the PostgreSQL repositories (SQL), the handshake and authentication of a socket and the
-- goroutines that serve it, the subscriptions at Twitch and the chat of users, the other HTTP handlers, the
-- Twitch clients, the push senders, the configuration, and the log.
pub mod Base
pub mod Domain
pub mod Memory
pub mod Application
pub mod Tests
