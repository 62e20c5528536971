-- ===== src/Lib.antt =====
-- The field service backend: customers order service packages, pay for them, and dealers and their
-- workers take the jobs, report on them and are paid.
--
-- Parts, and the files that model them:
--
--   Common     shared names, lists over the native numbers, the stable sort by a number that the
--              code takes from `Array.prototype.sort`, signed integers, results that are a value
--              or the error thrown, and lines of cells with separators (Csv).
--   Shared     src/shared: the errors, and periods of time.
--   Handling   src/handling/entities: the events that workers report, and the most recent of them.
--   Payment    src/payment/entities: the responses of the payment gateway, and the most recent one.
--              Methods are the names of the methods of payment, Responses is
--              repository/payment-gateway-response.repository.ts with the calls of payment.service.ts
--              that store a response, Deliveries is about their order. Page is
--              queries/handlers/get-ipay88-payment-checkout-info.handler.ts with src/payment/ipay88,
--              Pages is about it.
--   Service    src/service-request/entities/service.entity.ts and provider.entity.ts: the job of a
--              service request. Provider is `Provider` and its factory, Build is the constructor of
--              `Service` with the `calculate...` methods, Queries are the `is...` and `has...`
--              methods, Operations are the methods that make a new service. A service is an
--              immutable record that each operation builds anew from the last event, the provider
--              and the last payment response.
--   Order      src/service-request/entities: Report is technical-report.entity.ts, Quotation the
--              quotations and the search for a price tier, Pricing and Package are
--              requested-service-package.entity.ts, Customer is customer-order.entity.ts, Factory is
--              factories/customer-order.factory.ts. Tiers, Prices, Totals, Groups, Bundles, Resets,
--              Reports, Asked and Creation are about them.
--
--   Wallet     src/wallet: wallets and their transactions; Handlers are the command handlers that move
--              balances, Books the steps that they make on one wallet and its transactions.
--   Request    src/service-request: Moment is the interface to the library moment, Appointment and
--              Rescheduling are appointment.entity.ts and customer-reschedule-order.entity.ts,
--              Aggregate the guarded methods of service-request.entity.ts, Orders the creation and
--              execution of a reschedule order with the two callers that save the request,
--              Work the handler of a report of work in src/handling/commands/handlers,
--              Progress the methods without guards. Factory is factories/service-request.factory.ts
--              with `create` and `calculate` of service-request.service.ts, Services has the calls
--              of that service that end a request, Saga is sagas/service-request.saga.ts, Reminders
--              reminder.processor.ts, Payments the handler of the responses to a fee. Creation, Endings,
--              Stale and Fees are about these.
--   Payout     src/payout: Factory is payout.factory.ts and LineFactory payout-lines.factory.ts, with
--              the rows that the queries find as arguments. Due is the sum that the transactions
--              stand for, LineTotals and Filing are about the lines that come of them, Scheduling
--              is schedulePayoutsFromWalletTransactions. Lines has the states of payout lines and the
--              report of a payment, Batch and Batches the batches of payment files of
--              payout.service.ts, LinesFile and JobNumbers the file of the lines with
--              their numbers, ReturnFile and ReturnFiles the file that the bank sends back.
--              ScbPayment is dtos/scb-payment.dto.ts, ScbRecords the builder of the records for the
--              bank with the text of the file, ScbFile is about them; SummaryFile and Summaries are
--              the file with one row for each request, Tenants the run for both companies.
--   Promotion  src/promotion: Codes is the handler that applies a code, Discounts are the bounds of
--              what it takes off, Redemptions the calls on one row.
--   Dispatching
--              src/dispatching: Events are the handlers of events and of expiry, Assignments the
--              handlers that accept and assign, Commands those that allocate, cancel, revoke and
--              initiate, Tickets the processor of the queue, Scan the handler of the query for
--              candidates in src/service-provider. Exclusive, Acceptance, Reachable, Releases,
--              Agreement and Desks are about who holds a request, Candidates, Rounds and Batches
--              about whom it is offered to, Revocations about what follows a revocation.
--
-- Interaction. A request is created with an order, which the factory makes of the packages asked for
-- and reduces by a promotion; the call counts a use of the code in its row, and the request gets its
-- appointment after that. The saga turns the events of a request into commands, which other parts
-- handle. A request holds a service (the job) and an appointment, and its methods test the
-- job before they call the operation of the same name on it. The handlers of payments and of
-- reports hand histories to the service. A job that is completed credits a wallet; a payout holds
-- a part of its balance back and releases it when it is paid, and its lines go from a batch to the
-- bank's files and come back in the return file. A dispatched request is offered by the queue,
-- round by round; who accepts it becomes its dispatcher, and the handlers of its events change the
-- offers later. The handlers of events may run late and in any order, and are steps of their own.
--
-- Correspondence. A method of a TypeScript class in camelCase is the function of the same words in
-- snake_case, with `this` as its last argument. A method that assigns to `this` returns the new
-- record. Enums are data types with the same members, nullable values are options, and a thrown
-- error is `err`. When a method throws, what it has written to its object before is lost with the
-- error, as it is for the callers, which do not save then. The one exception is
-- createCustomerRescheduleOrder, whose caller saves after the error of an unpaid surcharge: its
-- result is a data type. The clock and the answers of the database are arguments.
--
-- Numbers. Quantities, minutes and dates (milliseconds since the epoch) are natural numbers,
-- amounts are integers in units of the last decimal of their columns, so the rounding of floating
-- point numbers is not modelled; the percentage of a total is a parameter. Ids are only compared,
-- and are natural numbers. Loops go over lists or down from a length. The jobs of the queue, each
-- of which adds the next, run on a number of rounds, and one more than there are batches is
-- enough. The methods `trim` and `toUpperCase` of texts are parameters, since they go over all of
-- Unicode, and so is the library moment, with the laws of its documentation as hypotheses where a
-- theorem needs them.
--
-- Not modelled: the database and its repositories, HTTP controllers, authentication, notifications
-- and remote services, which are calls of libraries; conversions to data transfer objects; the names
-- of the files and their upload; the patches of the prices of old requests; the change of
-- specifications by an operator; the error descriptions and the redirections of the gateway, and
-- the ciphers and dates of its helper.
pub mod Common
pub mod Shared
pub mod Handling
pub mod Payment
pub mod Service
pub mod Order
pub mod Wallet
pub mod Request
pub mod Payout
pub mod Promotion
pub mod Dispatching
