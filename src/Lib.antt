-- ===== src/Lib.antt =====
-- Marum's engine (pkg/core): what a borrower owes, computed from a contract, a confirmed anchor and
-- the events recorded since. All of it is pure Go over int64 money and proleptic Gregorian dates.
--
-- The parts, from the bottom up, and the files that model them:
--
-- Prelude: tests on numbers, lists, texts as lists of code points, the integers, the wrap-around
-- of int64 (Prelude/Int64) and results (Prelude/Results): a value, one of the sentinel errors, or
-- a panic. Messages of errors are not modelled. A Go map with a zero value is a function.
-- Money: pkg/core/money. Money/Currency is currency.go, Money/Amount is money.go and the
-- restoring of an amount in json.go, Money/Rounding is rounding.go and Money/Accrual is
-- accrual.go. Every int64 operation whose result the source does not guard is wrapped; the
-- product of 128 bits is a high and a low word, and its division panics as bits.Div64 does.
-- Date: pkg/core/date. Date/Calendar is date.go with the parts of package time that it calls
-- written out: AddDate by days is a walk of single days, a difference of times is a difference of
-- day numbers that saturates where time.Duration does, after 106751 days. Date/Schedule is
-- schedule.go.
-- Model: pkg/core/model. Model/Loan is loan.go, Model/Buckets is buckets.go, Model/Event is
-- event.go with its stable sort as an insertion sort, Model/State is state.go.
-- Allocation: pkg/core/allocation/allocation.go. The state that the loop of Apply changes is the
-- record Settling; the returned position, split and ErrUnknownPolicy are the record Interpreted,
-- since the source returns a split with that error too.
-- Ledger: pkg/core/ledger. Ledger/Accrual and Ledger/Replay are helpers.go, Ledger/Partition and
-- Ledger/Replay are replay.go. The state of the loop of Replay is the record Cursor.
--
-- Amortisation: pkg/core/amortisation. Amortisation/Dates is the dates of schedule.go and
-- calendar.go, Amortisation/Rows the rows and the outcome of a projection, Amortisation/Level is
-- schedule.go, Amortisation/Declining is declining.go, Amortisation/Solve is solve.go and
-- Amortisation/Build is Calendar.build with Build and Next. The state of the loop of a projection is
-- the record Walk, which always has the rows; a caller that wants none drops them.
--
-- The planner is pkg/core/plan. The file fees.go is Plan/Fees; the permission cycle and
-- validateCarry of spending.go are Plan/Period; one increase of a limit in budget_rules.go is
-- found in Plan/Growth, budget_rules_release.go in Plan/Release and the names of the rules in
-- the module Plan/Rules. A big.Int is an integer without bounds; its rounded quotient, which two
-- files write out, is Plan/Shares.
-- A run of the planner follows one policy on a dated timeline. What it is given is Plan/Input
-- (input.go, policy.go and the types of cash_routing.go), what it produces Plan/Outcome (result.go),
-- and its state, the struct sim with its loans and its buckets of cash, is Plan/State. The next
-- obligation of a loan (projection.go) is Plan/Obligation, the quote for an optional payment is
-- found in Plan/Quote. The modules of Plan/Sim are the operations: Payment (prepay, close, action),
-- Reserve (reserved, optionalCash), Allocate (allocate, routeCash), Routed (addRouted), Cycle
-- (openCycle, closeCycle, income), Periods (period), Events (lump, due), Accepted
-- (validateCashRouting), Start (runConfigured up to its loop) and Run: nextEvent, one round of the
-- loop as the function step, the states that the loop comes through as the relation Reaches, and
-- what follows the loop with conserve. The relation needs no fuel. Plan/Normalise is Normalize of
-- input.go, whose loop has the bound of three assumed instalments that the source gives it.
-- The orders of strategies.go are Plan/Strategy: the figures of a loan Plan/Strategy/Figures, and
-- StrategyOrder is Plan/Strategy/Order. The sort of package sort is an insertion sort; its order ends with the
-- identifiers, which all differ.
-- The pointers to the loans of a run are their indexes, read again after each call that may have
-- written through one. The source keeps an error in s.err until the event ends and then drops the
-- state; here the error ends the event at once, also where the source first compares the empty
-- amount of an overflow with another and panics. The cache of projections is left out: each answer is
-- computed again. A comparison of strings by bytes is one by code points, which in UTF-8 agree.
--
-- The modules below each of these, such as Money/Accrual/Exact, hold the proofs. Tests holds concrete
-- runs.
--
-- Fuel: the loop of accrueAcross runs on the number of days of its interval and one more, which is
-- enough because each of its rounds moves on by a day or more. The bisection of Solve runs on 64, one
-- more than an int64 can be halved. The loop of PaymentDates has the bound of 600 that the source
-- gives it, that of Normalize has three rounds, and the digits of a month are taken off on as many
-- rounds as its number has units. Every other loop is over a list.
--
-- int in Go is an integer here where the source only compares it, adds small numbers to it or hands
-- it to package time: years, months, days and numbers of records are far inside the range.
--
-- Not modelled: printed forms that nothing reads back, JSON syntax, time zones, the hash of the
-- events of a replay, the wording of a schedule in explain.go; of the planner the months of a growing
-- limit (ExpandSpendingLimits), Input.Validate but for the routing of cash, strategyPolicy,
-- the search over policies and the reports; and the application services and the adapters.
pub mod Prelude
pub mod Money
pub mod Date
pub mod Model
pub mod Allocation
pub mod Ledger
pub mod Amortisation
pub mod Plan
pub mod Tests
