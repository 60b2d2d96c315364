-- ===== src/Lib.antt =====
-- A model of the payment core of Postral: refunds, payment channels, and the life of a payment.
--
-- The program. A customer pays for items of sellers; a payment is a row with its items
-- (libs/postral-entities/src/entity). A refund request asks for a quantity of some of the items.
-- While it is pending it reserves the quantity; a seller (or, for another application, the service
-- itself) approves it, which creates a payment of the opposite type, counts the quantity on the
-- items and resolves the request, or rejects it. All of this is in
-- libs/payment-core-webservice/src/service/refund.service.ts, with the arithmetic of
-- libs/common-utils/src/amount-calculations.ts.
--
-- The files.
-- Prelude: lists, options and integers over the native numbers, calls that return or throw
--   (Prelude/Throws), strings as the source tests them (Prelude/Text), and rows found by a key
--   (Prelude/Lookup).
-- Amount: `AmountCalculationUtil`, over a record `BigJs` of the operations of the package big.js.
--   An amount is an integer of ten-thousandths, as the columns of type `MoneyDbField` hold it
--   (Amount/Decimal). `IsExact` says what the services rely on: sums, differences and shares of
--   such amounts are exact, and a share rounds half up or is cut. Amount/Fractions is an instance.
-- Entity: the entities and their enumerations.
-- Refund/Checks: the validations of `RefundService`. Refund/Build: `buildRefundRequestEntity` and
--   the prices of refund items. Refund/Store: the tables, `withPaymentLock` and the counters of the
--   items. Refund/Service: create, reject, resolve. Refund/Approval: `approveRequest`, its two
--   transactions and its lease. Refund/System: `startRefundMicroservice`.
-- Refund/Build/Final, Refund/Build/Share: the amounts of refunds. Refund/Lease, Refund/Release: the
--   lease of an approval. Refund/Again: a system refund that is asked for twice.
-- Refund/Reservation: the quantities that requests hold (Counts, Items, Requested, Approved, Nonneg),
--   the invariant of the tables (Invariant), one module for each transaction (Create, Resume, Finish,
--   Reject), and the transactions in any order as a step relation (Steps).
-- Refund/Tests: runs at concrete data.
-- Channel/Allocation: how a refund is spread over the captures of a payment, in
--   libs/payment-core-webservice/src/service/payment-operation-management.service.ts, with its proofs
--   in the modules below it. Channel/Operations: the totals of operations, firing and cancelling.
-- Lifecycle: the status of a payment in libs/payment-core-webservice/src/service/payment.service.ts.
--   Lifecycle has the update as one run. Lifecycle/Calls has each call cut at its `await`s, where it
--   keeps the payment that it read (`Call`), Lifecycle/Moves how calls overlap, Lifecycle/Runs calls
--   that are not interrupted, Lifecycle/Rows the rows, Lifecycle/Stages and Lifecycle/Alone how far a
--   call is, Lifecycle/Once the orders and transactions. Lifecycle/Final: resolved payments.
--   Lifecycle/Overlap: a start that saves late. Lifecycle/Lost: a channel that fails when it is fired.
-- Ledger: what a payment debits and credits, in
--   libs/payment-core-webservice/src/service/account-payment-transaction.service.ts. Ledger/Sellers,
--   Ledger/Sums: one transaction for each seller, and its sums. Ledger/Balance: debits and credits.
--   Ledger/Content, Ledger/Again: transactions that are made a second time.
-- Orders: the orders of the sellers of a payment, in
--   libs/payment-core-webservice/src/service/seller-payment-order.service.ts: Orders groups the items,
--   Orders/Save writes the rows. Orders/Again: orders that are saved twice. Orders/Open: open payments.
-- RefundPayment: the payment of a refund, `createRefundPayment` of payment.service.ts, which prepares
--   it and then saves it in a transaction, over the operations of Ledger and Orders (`Posting`).
--   RefundPayment/Prepared: what it reads. RefundPayment/Once: its transactions in any order.
--   RefundPayment/Balance: its entries.
-- Settlement: what a channel reports of a refund that carries a plan, `saveRefundSettlementRecord` of
--   payment-operation-management.service.ts: Settlement one line, Settlement/Record the transaction,
--   Settlement/Inversion and Settlement/Reported what it reads and computes, Settlement/Balance its
--   entries, Settlement/Grow sequences of reports, Settlement/Again a report that comes twice.
-- Order: the items, totals and taxes of an order, in
--   libs/payment-core-webservice/src/service/order-calculation.service.ts, over a record of what other
--   services answer (`Catalogue`) and over any type of numbers, so that nothing is rounded before a
--   row is saved. Order/Totals: the sums. Order/Payment: the payment that an order begins with,
--   `generateEntityFromInitDto` of payment.service.ts, where each column of an amount is rounded.
-- Cleanup: libs/payment-core-webservice/src/service/payment-cleanup.service.ts: Cleanup the preview,
--   Cleanup/Delete the transaction, Cleanup/Kept, Cleanup/References and Cleanup/Integrity what the
--   rows that are left belong to, Cleanup/Removed how many rows go, Cleanup/Dangling an ID of a request
--   that is gone.
-- ReturnUrl: the origins a browser may be sent back to, in
--   libs/payment-core-webservice/src/util/payment-return-url.util.ts, over the URL class as a
--   parameter. ReturnUrl/Again: a list that is normalized twice. ReturnUrl/Entered: what is accepted.
-- Tax: libs/common-utils/src/tax-calculations.ts. Tax/Merge: the total of taxes.
--
-- How the code is read. A transaction is a function from the tables to the new tables and the
-- answer, or to an error; one that throws leaves the tables as they were. Since a transaction
-- holds the lock of its payment, requests that run at the same time are sequences of such steps.
-- The calls of Lifecycle hold no lock; their steps are the parts between two awaits. Times are in
-- milliseconds; the time, new IDs and tokens, the accounts that a user may act for, and, for an
-- approval, the creation of the refund's own payment are arguments. Loops are structural
-- recursion, so no fuel is needed; the four steps that Lifecycle/Runs gives an update are enough,
-- which is proved.
--
-- The orders and transactions that completion makes are a list of the payments they were made for
-- (`posted`).
--
-- Not modelled: the database and its driver, HTTP end points, mappers, searches, events, the sums
-- of reports, invoices, and the integrations of payment channels; the preparation of refund plans;
-- note texts and snapshots of addresses on payments. Stored amounts have four decimals. Numbers
-- with more occur in Order, where they are any type, and, with those that are not finite, as input
-- of a refund request (`Count`), where they are refused.
pub mod Prelude
pub mod Amount
pub mod Entity
pub mod Channel
pub mod Cleanup
pub mod Ledger
pub mod Lifecycle
pub mod Order
pub mod Orders
pub mod Refund
pub mod RefundPayment
pub mod ReturnUrl
pub mod Settlement
pub mod Tax
