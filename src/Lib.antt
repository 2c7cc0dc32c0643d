-- ===== src/Lib.antt =====
-- shortfall: what an incident cost, measured from telemetry.
--
-- The program is a Go library. An application records outcomes and in-flight money (emit, biz), a
-- backend stores them, and the engine (engine) asks the backend four questions (query) and returns a
-- report of legs: realized loss, deferred value, unrealized loss, customers, and coverage against a
-- provider's ledger. The flow registry (registry) says what counts.
--
-- Files and what they model:
-- Prelude       shared names; integers and int64 with its wrap-around (Int, Int64), decimal text
--               (Decimal), maps with string keys as association lists (Maps), stable sorting (Sort).
-- Biz.Money     biz/money.go: Money, Validate, String, ParseMinor.
-- Biz.Context   biz/context.go and biz/ledger.go: the types, the token tests, LedgerRow.Validate.
-- Biz.Baggage   biz/baggage.go: EncodeVC, DecodeVC and their escapes.
-- Biz.Pii       biz/pii.go: the guard against card numbers, e-mail addresses and IBANs.
-- Biz.Validate  biz/context.go: the Validate methods of ValueContext and Outcome.
-- Query         query/query.go and query/combine.go: the query types and the Querier interface.
-- Query.Memq    query/memq/memq.go: the in-memory backend's event queries; Metrics is its
--               metric queries, with float64 as a parameter.
-- Engine        engine/engine.go: request, leg, filters, maps of sums.
-- Engine.Realized  engine/realized.go: the realized leg.
-- Engine.Deferred  engine/deferred.go: the deferred leg; Events is the path over outcome events, Gauge the
--               path over the tracker's gauge and the choice between the two (Deferred, deferred_leg).
-- Engine.Customers  engine/customers.go: the accounts that were hit. Engine.Severity is
--               engine/severity.go, SuggestSeverity, and Engine.Coverage engine/coverage.go, both with the
--               float64 operations as parameters.
-- Engine.Baseline  engine/baseline/baseline.go: HourOfWeek.Expected. Engine.Unrealized is
--               engine/unrealized.go, with Values the hours and their value, and Aov the average order
--               value. Engine.Floats is the record of float64 operations that both take, and in Ieee what
--               IEEE 754 gives of them.
-- Engine.Compute  engine/engine.go: Compute (compute) and the report.
-- Emit.InFlight  emit/inflight.go: the tracker's shards and calls Track (track), Done (finish) and
--               Publish (publish), one call at a time; Store is the map of a shard. Threads has the same
--               calls as threads whose steps interleave.
-- Emit.Emitter  emit/emitter.go: Std's state; Calls is Record (record_call), SetInFlight and
--               RecordProviderCall, Flush is Flush and Close, TwoGen the set of recent keys.
-- Registry      registry/registry.go: the validated registry and what is read of a flow; Registry.Host
--               is the allowlist, HostAllowed. Registry.Build is Parse and buildFlow from the decoded
--               document (Docs) on, with the checks of Rules and Blocks; Registry.Duration is
--               registry/duration.go, ParseISODuration.
--
-- How it is modelled. A string is its bytes. A map is an association list in the order in which keys
-- were first set; where Go leaves the order of a loop over a map open, the list's order stands for it.
-- An int64 sum is an integer with the wrap-around written out (add64). A time is its instant in
-- nanoseconds, read in UTC. A result (v, err) is a value or an error with its kind; the texts of errors
-- are not modelled. A metric's float64 values are a parameter, with their conversion to int64. The loops
-- are structural recursions over lists. Three have a bound on their rounds: the printer of a number's
-- digits, the number plus one; the loop over the hours of a window, one more than the whole hours in it;
-- and the loop over the buckets of a metric query, the length of the range in nanoseconds, since each
-- bucket begins at least a nanosecond later. The long caveats of the legs are cut to their first words,
-- and the notes of the counterfactual leg are constructors with the values that their texts show.
-- In the tracker, the hash that picks a shard is a parameter. Threads takes a step for each access to
-- a mutex, a shard under its mutex, the counters and the exponents' map.
--
-- Not modelled: reading and decoding the registry's YAML; the errors of the emitter's New on its
-- options, so that its sizes are any numbers; the panic of ibanMod97 on a text shorter than four
-- bytes, which no caller passes; the saturation of a difference of times beyond 292 years; the loops
-- over tickers of the emitter and the tracker; and the rendering of reports. The adapters, the
-- carriers in propagate and the command line are clients of third-party packages and are left out.
pub mod Prelude
pub mod Biz
pub mod Query
pub mod Engine
pub mod Emit
pub mod Registry
