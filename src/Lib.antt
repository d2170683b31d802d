-- ===== src/Lib.antt =====
-- The stock and the receivables of the application in backend/app: the ledger of movements, the
-- reservations of stock for customer orders, the transfers between warehouses and the physical counts;
-- and the money of a line, the invoices with their payments and post-dated cheques, the credit of the
-- clients, the payments to suppliers, and the conversion of units.
--
-- Every service works in one database session. A session is modelled as the tables that its service
-- reads and writes; an operation takes the tables and returns the new ones, or an error, where nothing
-- is committed. Ids are numbers, and quantities, which the database keeps with two decimals, are
-- integers that count hundredths.
--
-- Common has the integers, the results of service calls (an HTTP error of schemas/common.py, or the
-- IntegrityError of SQLAlchemy or a ValueError), the tables, and the `for` loops.
-- Stock is models/inventory.py and services/inventory_ledger.py: Stock/Locate the loads and the row
-- that a movement locks, Stock/Ledger `post_issue` and `adjust`, Stock/Checks the CHECK constraints
-- and the flush; Balance, Issue, Shipping and Adjust hold the proofs.
-- Reservation is models/stock_reservation.py and services/stock_reservation_service.py:
-- Reservation/Create `create_reservation`, Reservation/Release `cancel_reservation` and `expire_due`,
-- Reservation/Dispatch `release_for_dispatch`. It locks and writes the rows of Stock.
-- Transfer is models/stock_transfer.py and services/stock_transfer_service.py: Transfer itself has
-- creation and approval, Transfer/Steps dispatch, receipt and cancellation. It writes the rows of
-- Stock and their ledger, and takes its number from Numbers.
-- Count is models/stock_count.py and services/stock_count_service.py: Count itself has the creation
-- of a count, Count/Steps the operations on it. It too writes the rows of Stock and their ledger.
-- Numbers is the pattern of services/dn_number.py, credit_note_number.py, tax_debit_note_number.py,
-- stock_count_number.py and transfer_number.py.
-- Money is services/line_money.py: rounding half up to hundredths, and the sums of a line.
-- Receivable is what models/invoice.py, payment.py, idempotency_key.py, invoice_event.py,
-- credit_status_event.py, client.py and workspace.py give the services below: the rows, what is paid
-- of an invoice, and its balance. Receivable/Restated is the relation of two stores that differ in
-- statuses alone, Receivable/Paid that of two stores between which one payment began to count.
-- Credit is services/credit_control_service.py: Credit itself has the decisions, Credit/Evaluate the
-- calls that write; Ageing, Decision, Restates, Overdue and Standing hold the proofs.
-- Invoicing is the part of services/invoice_service.py that follows the payments: the status of an
-- invoice, and its event (services/audit_service.py).
-- Payments is services/payment_service.py: Payments/Record is `record_payment`, which calls Invoicing
-- and Credit; Cap, Once, Books, Retry and Recorded hold the proofs.
-- Cheques is services/pdc_service.py: Cheques itself has its four calls, Cheques/Machine the machine
-- that its docstring gives, Moves and Runs that the calls implement it, Effect the balances, Ends
-- where a cheque ends.
-- Payables is models/supplier_invoice.py, supplier_payment.py and supplier_invoice_event.py, and how a
-- payment settles an invoice; Payables/Record, Issued and Reverse are the writing calls of
-- services/supplier_payment_service.py, supplier_pdc_service.py and
-- supplier_payment_reversal_service.py, Book, Served, Calls, Recorded and Booking the proofs on the stored
-- amounts, Settling, Undo and Undone those on a reversal.
-- Units is services/uom_conversion_service.py, over any type of decimals; Units/Search is what its
-- search comes to.
-- Pricing is services/pricing_service.py; Pricing/Sorting is the sort of its rows, Pricing/Chosen the
-- price that it resolves.
-- Tests has runs of all of these on a small shop and a small ledger of receivables.
--
-- A loop over rows is a structural recursion over the list that the query returned, so no fuel is
-- needed. The rows of a loop are objects of the session, so each round reads its row anew. The search
-- of Units is given fuel: two rounds are enough, since every conversion is one from or to the base unit
-- of the product.
--
-- The session of the application does not flush before a query (database.py). The stores of the
-- receivables are those of the session's objects: where a query of credit control tests a status that
-- is not flushed yet, that is the status of an invoice that was determined just before from its
-- balance, and an invoice that left the open statuses by it has no balance to count.
--
-- Not modelled: row locks and concurrent sessions (a call is one transaction); the bound of twelve
-- digits on a quantity; the columns `created_at` and `updated_at` where nothing reads them, names
-- and texts of messages; a flush in the middle of a call tests only the row it inserts, since a
-- later flush of the same call tests all of them; reading and serializing rows for the routers. The
-- clock is a number that the caller passes, in seconds for the receivables, whose dates are days.
-- The metadata of an event and the log are left out. The other services (drafts, sending and voiding
-- of invoices, credit notes, procurement, documents, reports), the routers and the frontend are left
-- aside.
pub mod Common
pub mod Numbers
pub mod Money
pub mod Receivable
pub mod Credit
pub mod Invoicing
pub mod Payments
pub mod Cheques
pub mod Payables
pub mod Units
pub mod Pricing
pub mod Stock
pub mod Reservation
pub mod Transfer
pub mod Count
pub mod Tests
