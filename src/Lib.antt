-- ===== src/Lib.antt =====
-- clientkit: a Go library for outbound clients. Package clientkit (registry.go, opskit.go,
-- health.go, readiness.go) keeps a registry of clients, their passive health and their readiness;
-- package httpclient runs HTTP operations with retries, timeouts, redirects and classification, and
-- package tcpclient dials.
--
-- The parts and their files:
--   Identity: client.go, protocol.go and httpclient/operation_name.go, the names of clients.
--   Failure, Health, Readiness: failure.go, health.go, readiness.go. Health/Message is
--     boundedHealthMessage, on Utf8, the decoding and encoding of runes.
--   Registration, Registry, Snapshot: registry.go. Registration is validateRegistration, Registry
--     is RegisterAll, Get and applyHealthCheckOutcome, Snapshot is Snapshot; Dict is a Go map and
--     Sort is sort.Slice by name.
--   Opskit: the names of package opskit that opskit.go uses, a parameter. Projection: Status,
--     Readiness and opskitNamedClientCheck of opskit.go. Check: checkClientHealth.
--   Fault: internal/failure/classify.go. Http/Outcome: httpclient/failure.go, httpclient/result.go
--     and classifyOutcome of httpclient/do.go.
--   Http/Safety, Http/Retry, Http/Override, Http/Delay: httpclient/retry_safety.go,
--     httpclient/transport_retry.go, httpclient/retry.go, httpclient/execute_options.go and
--     internal/configvalue/duration.go. Http/Classifier: httpclient/response_classifier.go.
--   Http/Meeting, Http/Execution, Http/Origin, Http/Operation: httpclient/do.go, which are one
--     attempt, the loop of attempts in Client.do, validateRequestOrigin with the redirect check, and
--     Client.do around its loop.
--   Observer: observer.go. Observer/Closing and Observer/Compose are about observers that are composed
--     in groups, Observer/Contained about their panics, Observer/Brackets about the order of calls.
--   Check/Concurrent: the workers, permits and slots of CheckAll, as a step relation; Check/Group: the
--     summary that CheckAll makes.
--   Http/Header, Http/ContextHeaders: httpclient/context_headers.go. Http/Propagation:
--     httpclient/propagation.go.
--   Telemetry/Attributes: otel/attributes.go. Telemetry/LogAttributes and Telemetry/Slog:
--     slogobserver. Telemetry/Transport: internal/httpotel.
--   Client: client.go, config.go and internal/healthrecord. Tcp/Dial, Tcp/Check: tcpclient/dial.go,
--     tcpclient/result.go and tcpclient/check.go. Tcp/Check/Cached is about a check and later
--     reads. Tcp/Config: normalizeCheckConfig.
--   Prelude, Text: shared notation, lists, integers, results and strings. Examples: the theorems at
--     concrete inputs.
--
-- How the code is modelled. A string is the list of its bytes. A string type with a fixed
-- vocabulary is a data type with one constructor more for any other text. A time is a number of
-- nanoseconds since Go's zero time, a duration an integer, without the bound of 292 years at which
-- Time.Sub stops. A method of caller-supplied code returns or panics. The registry's mutex makes
-- each of its operations one step. An error is the list of the errors that errors.Is and errors.As
-- visit. What an attempt or a check meets (errors of its context at each point that asks for them,
-- responses, the clock) is a record that the model takes as given; what the loop does is a list of
-- effects. The loop of attempts takes as fuel the number of attempts that the policy allows, which
-- is enough because the last of them does not go on. Observers, propagators and providers of
-- header values are functions of the world or the header that they change. In the concurrent
-- checks a step is what one goroutine does between two waits, and a run is any interleaving of
-- steps with contexts that end.
--
-- Not modelled: the float64 arithmetic of retryDelay, whose result is an argument; the base
-- transport; the spans and metrics of OpenTelemetry; the aliasing of slices that the code copies; the
-- health check of an HTTP client; and of the TCP client its other configuration, what a dial tells the
-- observer and the close that follows when a context ends during a probe. http.ParseTime,
-- strings.EqualFold on hosts, a configured CheckRedirect, opskit.SummarizeChecks and the names of
-- package opskit are parameters.
pub mod Prelude
pub mod Text
pub mod Identity
pub mod Utf8
pub mod Dict
pub mod Failure
pub mod Health
pub mod Readiness
pub mod Registration
pub mod Registry
pub mod Sort
pub mod Snapshot
pub mod Opskit
pub mod Projection
pub mod Fault
pub mod Http
pub mod Check
pub mod Observer
pub mod Telemetry
pub mod Client
pub mod Tcp
pub mod Examples
