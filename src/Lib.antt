-- ===== src/Lib.antt =====
-- The billing core of the CPA plugin for group billing (internal/billing), and the calls
-- of the proxy that use it (internal/plugin).
--
-- The program is a plugin of a proxy for language models. It admits the requests of API keys and
-- charges their usage. A key is in one of two modes. In the legacy mode it has a subscription plan with
-- quota windows. In the grouped mode it has a group plan, and each model belongs to a published resource
-- group, with a day ledger, a daily limit and a concurrency limit for each key and group. All state is in
-- one store behind a lock; live updates are saved when the database can, edits of the configuration are
-- published only once they are saved.
--
-- Parts, with the code they model:
--   Prelude     Shared names: tests on native numbers, lists, Go's int64 with its wrap-around (Int64),
--               texts as lists of code points (Text), maps as association lists (Table), counts of
--               entries (Tally).
--   Errors      internal/billing/errors.go, with results for code that returns an error.
--   Calendar    group_types.go: groupDate, nextGroupDay. An instant is a number of nanoseconds since
--               year 1 in UTC; Asia/Shanghai is UTC+8, which holds since September 1991.
--   Float       What the code uses of float64: an interface F with the operations, and the facts of
--               IEEE 754 that proofs use (IsFloat), which decimals with nine places meet (Nanos).
--   Usd         group_types.go: USD in nano-dollars, ParseUSD, String, addGroupCount, costUSD.
--   Pricing     pricing.go: TokenBreakdown, PriceRates, ComputeCost, the checks of rates. Exact: costs in
--               decimals.
--   Routing     routing.go: RouteRule, NormalizeRouteRule, RoutingDecision.
--   RoutePolicy routing.go: resolveRoutingState, ResolveRouting. Merge: the decision on a request.
--   Routes      routing.go: CreateRoute, UpdateRoute, SetKeyRoutes, DeleteRoute. Links, Names, Calls: what
--               the edits keep; Deletion: what a deletion does to the keys.
--   Groups      group_types.go: the data of groups, plans, bindings and ledgers, with GroupState.binding,
--               modelOwner and policy.
--   Models      prices.go and group_types.go: ModelWithoutThinkingSuffix, requestModelOwner.
--   State       state.go, plan.go, quota.go, request_events.go: the data that the store keeps; Changes:
--               repository.go, Changes.merge.
--   Store       store.go: updateResult (update_result), editConfiguration (edit_configuration), Close;
--               Pending and Durable: what is saved and what is pending.
--   Slots       concurrency.go: AcquireSlot, ReleaseSlot.
--   Admission   group_account.go: AdmitGroup, GroupCredentialPolicy. History: the store under any
--               sequence of operations.
--   Accounting  group_account.go: accountGroupUsage.
--   GroupConfig group_config.go: Lifecycle (CreateResourceGroup, UpdateResourceGroup,
--               PublishResourceGroup), Plans (SaveGroupPlan), Schedule (ScheduleGroupBinding), Reset
--               (ResetGroupDay, CacheSharedLabels).
--   Identity    identity.go: freeID, slugify, PreviewKey.
--   Prices      prices.go and builtin_prices.go: ResolveBillingModel, ResolveModelPrice (Resolution),
--               UpsertPrice and DeletePrice (Edits).
--   Plans       plan.go: Plan.Validate, prepareWindows (Plans), and the edits of plans (Edits), with what
--               they keep of the keys that are on a plan (Subscriptions, Kept, Calls).
--   Quota       quota.go and enforce.go: cycles, chargeCycles, Authorize.
--   Keys        keys.go and concurrency.go: BindKey, UnbindKey, SetLabel, SetConcurrencyLimit; Scopes:
--               normalizeScopes; Reset: ResetQuota; Sync: SyncKeys and ensureKey.
--   Scheduler   internal/plugin/scheduler.go: the weighted round robin over the credentials of a pool.
--   Host        internal/plugin/app.go, intercept.go, routing_credentials.go: the state of the plugin
--               between two calls of the proxy; Intercept: interceptBeforeAuth and completeRequest, with
--               the responses that turn a request away (Responses); Credentials: observeCandidates and
--               pickCredential; Race: the orders of the calls for one request.
--   Examples    The theorems applied to a small store.
--
-- How state and operations correspond: a Go struct is a record, a method that changes the store is a
-- function that returns its result and the new store, and the function that an edit or an update is
-- given is a function from a state to a result, a state and changes. The clock is an argument: one
-- instant, or the successive readings where the code reads it more than once. An error carries its
-- format string without the arguments.
--
-- Bounds and fuel: int64 is written out with its wrap-around. The only loop without a bound of its own is
-- the last one of freeID; for the names of groups, plans and routes it is given one attempt more than
-- there are entries. Numbers in decimal have nineteen digits, enough for an int64. Letters outside
-- ASCII have no other case.
--
-- Not modelled, and what stands for it: the database, whose save is an argument and whose error leaves it
-- as it was, like the writes of one price (PriceWriter); the database of reference prices, whose answer is
-- an argument (Referenced), and its download; SHA-256, as functions of the fingerprint of a credential,
-- of the pool of a rule and of the scope of a key; random identifiers and the times of the clock, as
-- arguments. Locks are not modelled: a call that runs under one lock is one step, and so is a pick of a
-- credential, which reads under several. Neither are logs, with the last error and the blocked keys that
-- the store keeps for them, JSON, HTTP, the texts and the content types of responses, listings and pages,
-- and the host's files of credentials. The state in memory is persistent in the model, so that clone has no counterpart.
pub mod Prelude
pub mod Errors
pub mod Calendar
pub mod Float
pub mod Usd
pub mod Pricing
pub mod Routing
pub mod Prices
pub mod RoutePolicy
pub mod Routes
pub mod Groups
pub mod Models
pub mod State
pub mod Store
pub mod Slots
pub mod Admission
pub mod Accounting
pub mod Identity
pub mod Keys
pub mod Examples
pub mod Quota
pub mod Plans
pub mod Scheduler
pub mod Host
pub mod GroupConfig
