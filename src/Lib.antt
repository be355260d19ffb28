-- ===== src/Lib.antt =====
-- Verification of lite-api, a gateway that takes the calls of API clients, chooses an upstream account
-- for each and bills it. Paths are from the root of the repository; the code is Go, all of it in
-- internal/app.
--
-- A call passes through parts that are modelled here, each in a file and its folder:
--   Common: texts as Go strings see them (Strings), the numbers Go signs (Int), JSON bodies (Json) and
--     the errors of the handlers (Errors: apiError, bad and conflict of app.go).
--   Models: the patterns of model names, the allowlist of a group and the choice of its preferred
--     accounts: validModelPattern, pricingName and patternsOverlap of pricing.go, concreteModel of
--     models.go, supportedPlatform of groups.go, modelAllowlist.validate, patternMatches, allows and
--     routingAccounts of gateway.go.
--   Composite: which provider serves a model in a composite group: resolve, betterCompositeRoute,
--     detectModelPlatform, the alias loop of loadComposite and compositeModelTargets of composite.go.
--   Reasoning: the reasoning effort that a body may name: reasoning.go. `apply` is the state step: it
--     takes the body and returns it changed. Reasoning.Input is the check of the settings on write,
--     Reasoning.Request what a body is found to request.
--   Slots: takeSlot and releaseSlot of gateway.go, trackKeySlot, StopAdmission, admissionWake and
--     waitAdmission of concurrency.go. Every function that holds gatewayMu is one step on the record
--     Gate; Step and Reach are the interleavings of the steps of all calls, each with the limit that it has
--     read.
--   FastPolicy: the rules on service tiers of fast_policy.go and the group override and billed tier of
--     group_fast.go.
--   Proxies: resolveProxyTarget of proxy_fallback.go, which follows the backups of a proxy.
--   GroupFallback: validateGroupFallback and resolveClientGroup of group_fallback.go.
--   Dispatch: messages_dispatch.go, which maps the models of Anthropic to models of an OpenAI group.
--   Mapping: resolveModelMappingFor of upstream.go, the model that an account is asked for.
--   Idempotency: gateway_idempotency.go. Codec holds what comes from other packages; the table of the
--     database is a function from its key, and Others the interleavings of what other calls do to it.
--   Pricing: pricing.go. Numbers reads the texts of prices, Periods the prices by the time of day, Cards
--     validates cards, and Charges computes what a request costs. Amounts are exact fractions (Common.Rat)
--     that are rounded where the program writes them; counts are natural numbers, so that the refusal of
--     negative ones is left out; what package time makes of a zone and a moment is a parameter. A map of
--     multipliers is the list of its entries, and its random order the order of the list. Search has
--     the costs of searches of settlement.go and grok_hosted_search.go.
--   Quotas: quotas.go, what platforms and accounts may be asked for. Times are whole seconds, and the
--     calendars of package time a parameter; an entry of the column extra is a member of Extra.
--   Settlement: settlement.go. The database is a record of tables, and a World has the hash of Redis
--     beside it. What the database and Redis answer to a call is its Outcome; Histories holds all sequences
--     of calls. The formats and the digest of the fingerprint are the parameter Codec. The pages of HScan
--     are an argument of the recovery, and the encoding of a receipt as JSON is taken to be undone by
--     decoding it. The columns updated_at are left out.
--   Selection: chooseAccount of gateway.go, with what it asks of an account: Profit (profit_control.go),
--     Matching (protocols, capabilities and resources), Order (the sorts) and Loop (the candidates in turn).
--     What the database answers about a candidate is an argument of the loop, and so are the prices of
--     channels. Loads are compared as exact fractions where the program divides floats.
--   ErrorRules: validate and matches of error_passthrough.go, the rules on errors of upstream services.
--
-- Errors are values of Result, with the status and message of the source. A loop over rows is structural
-- recursion on the list of them. The loop of waitAdmission recurses on the turns that the scheduler
-- gives it, one turn for each wake or tick: the list is no fuel of the model but the history, and a
-- result on every long enough history is a theorem.
--
-- Bounds and assumptions. Texts are lists of code points; byte_len counts their bytes in UTF-8. Case
-- folding and lower case are those of ASCII. IDs are natural numbers, since the database numbers its rows
-- from 1; the priorities of routes and rules are signed, those of accounts only compared for equality. A limit below 0 acts in takeSlot as 0 does. The counters do not reach
-- the end of Go's int. The wake channel is the number of broadcasts. A JSON object keeps its fields in
-- the order of the text; an update replaces the first field of the name, or adds one.
--
-- Not modelled: SQL, Redis and HTTP, whose results are arguments (the rows that loadComposite reads, the
-- outcome of an attempt), the translations between wire formats, the tasks for images, audio and video,
-- the administration, and the other parts that the manifest lists without definitions.
pub mod Common
pub mod Composite
pub mod Dispatch
pub mod ErrorRules
pub mod FastPolicy
pub mod GroupFallback
pub mod Idempotency
pub mod Mapping
pub mod Models
pub mod Pricing
pub mod Proxies
pub mod Quotas
pub mod Reasoning
pub mod Selection
pub mod Settlement
pub mod Slots
