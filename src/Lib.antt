-- ===== src/Lib.antt =====
-- A verification library for the settlement core of INRSettling.
--
-- The program moves money to India. A customer's settlement goes through the states of one frozen
-- table; liquidity for it is reserved at a facility, drawn, paid out, reconciled, and repaid later.
-- Its parts, and the files that model them:
--
--   Base          integers, lists, results and decimal text that the parts share.
--   Settlement    packages/domain/src/settlements and
--                 packages/app/src/settlement-transition.service.ts.
--     Status, Vocabulary   status.ts, and the types of transitions.ts.
--     Table                the thirty rows of TRANSITIONS, t01 to t30.
--     Evaluate             evaluateTransition, legalPairs, transitionById, deferredCompanions.
--     Exceptions           exceptions.ts, with the requirement of
--                          packages/domain/src/preflight/requirement.ts.
--     Projection           projection.ts: what the customer is shown.
--     Service              Defs holds the rows, the logs and protect_settlement_row of
--                          packages/db/migrations/0005_settlements.sql; Apply is applyTransition,
--                          one function for each of its early returns; Create is
--                          createSettlement.
--   Money         packages/money/src: Amount is index.ts, Fx is fx.ts.
--   Liquidity     packages/domain/src/liquidity and packages/app/src/liquidity.service.ts.
--     Facility, Reservation, Drawdown, Repayment    the domain's files of these names.
--     Service              Defs holds the tables, lockFacility and postMovement; Reserve is
--                          reserveLiquidity, Release is releaseReservation and
--                          consumeReservation, Repay is requestRepayment, Advance is
--                          advanceRepayment, and Facilities is createFacility and
--                          checkFacilityProjection. Steps puts the transactions in an order.
--   Payout        Attempt is packages/domain/src/settlements/payout-attempt.ts; in
--                 Service, Outcome and Apply are applyPayoutOutcome and sweepPayoutSla, and Retry is
--                 retryPayout, of packages/app/src/payout.service.ts; Dispatch is dispatchPayout of
--                 packages/app/src/settlement.service.ts. Their store holds the settlements' store.
--                 Steps puts them in an order, with the other transitions between them.
--   Reconciliation  packages/domain/src/reconciliation: Machine is reconciliation.ts, Finality is
--                 finality.ts.
--
-- How it is modelled. A transaction is a function from the store to the store and an answer; what
-- throws gives no new store, since the database rolls back. The services lock a row before they read
-- it, so concurrent transactions on it have an order, and a history is a list of calls (Settlement)
-- or a chain of steps (Liquidity, Payout). Minor units are integers without bound, as `bigint` is. New ids and
-- the time of the database are arguments. A guard's answer is an argument, as it is in the source.
-- Decimal text is a list of character codes; the digits of a number are taken with its successor as
-- fuel, which is enough, since a number has no more digits than that.
--
-- What is not modelled. Row level security and the tenant scope: a store is what one tenant sees.
-- Of the schema, the checks that a row passes stand as premises of a step: an amount is positive, a
-- limit is not negative, an id is new and no row runs ahead of it. Modelled are the unique index
-- repayments_one_live_per_settlement_cause of
-- packages/db/migrations/0009_reconciliation_finality_returns.sql, which refuses a second live
-- repayment of one settlement and return, and protect_settlement_row in its checks on the columns of
-- the machine; those on the frozen instruction and on the point of no return are not. The other unique
-- indexes (on a settlement's idempotency key, external reference and quote, on its attempts and on its
-- active reservation) and the other checks of a row are left out. They undo calls that the model
-- carries out, so the model has more histories than the program, and what holds in all of them holds
-- in the program's. The times of log rows and the outbox are left out. An annotation with an empty patch
-- writes nothing. The two calls of a payout provider, the services of reconciliation, returns, quotes,
-- batches, beneficiaries, webhooks, the API and the user interface are not modelled.
pub mod Base
pub mod Settlement
pub mod Money
pub mod Liquidity
pub mod Payout
pub mod Reconciliation
