-- ===== src/Lib.antt =====
-- Verification of the pebble daemon with its build-test extension: the parts that keep services
-- alive, keep their logs, combine their configuration, check their health, keep track of what the
-- daemon is doing, and tell its clients apart.
--
-- Base: what the other modules share: native numbers, lists measured by them, signed integers.
--
-- Service: the life of one service (internals/overlord/servstate/handlers.go, type serviceData).
-- Service.Data has its states and fields, Service.Machine and Service.Methods one function for
-- each method (start, exited as exit, stop, checkFailed, sendSignal and those of the timers), and
-- Service.Event the lookups of serviceForStart and serviceForStop and one step for all that can
-- happen. A method takes the time and the outcome of a system call as arguments, and returns the
-- new service with what it did besides: signals, timers, answers on the channels started and
-- stopped. The tasks that doStart and doStop run are events in any order.
--
-- Ring: the buffer of a service's log and its readers (internals/servicelog/ringbuffer.go and
-- iterator.go). Ring.Data has the buffer, two indices that only grow and an array of bytes;
-- Ring.Iterator the readers. The indices are int64 in Go and do not wrap here. Iterators are
-- values that are read against a buffer; their channels and locks are not modelled.
--
-- State: changes and tasks (internals/overlord/state/change.go and task.go). State.Status and
-- State.Data have the statuses and fields, State.Waiting and State.Aggregate the status of a
-- change, State.Store what setting the status of a task does to the state. Tasks are a function of
-- their number. The search for waiting tasks runs on fuel, of which one more than there are tasks
-- is enough.
--
-- State.Abort has the abort of a change and of lanes (Abort, AbortLanes, AbortUnreadyLanes), with
-- fuel for the loop over a growing list and for the calls of abortTasks and abortLanes by one
-- another. State.Building has how tasks are linked and put into changes (WaitFor, WaitAll,
-- JoinLane, AddTask).
--
-- Runner: the runner of tasks (internals/overlord/state/taskrunner.go). Runner.Data has its fields
-- and helpers, Runner.Ensure a pass over all tasks, and Runner.Finish what happens when a handler
-- has returned. A handler runs between two steps, and its result is an argument of the second.
--
-- Layers of configuration and the order of services (internals/plan/plan.go): Plan.Data has
-- services, checks, log targets and layers, Plan.Merge the Merge methods, Plan.Combine
-- CombineLayers, where the extensions of sections are a parameter, Plan.Order the function order,
-- and Plan.Lanes createLanes, StartOrder and StopOrder. The sort of tarjan.go is a copy of
-- another project's: it is a parameter, with what it promises in Plan.Sorting.SortsAll. A map
-- that is ranged over is a list of its entries in the order of one pass. The loop that collects
-- services runs on fuel. Plan.Validate has what is refused in a layer, with the words of a shell
-- command and the database of users as parameters, Plan.Command the default arguments of a
-- command, and Plan.Logs which services log to a target.
--
-- Identities: the identities of clients (internals/overlord/identities/identities.go).
-- Identities.Data has an identity and Validate, Identities.Manager the requests AddIdentities,
-- UpdateIdentities, ReplaceIdentities and RemoveIdentities, and Identities.Lookup
-- IdentityFromInputs, with the checks of certificates and passwords as parameters.
--
-- Checks: health checks (internals/overlord/checkstate/handlers.go, manager.go and request.go).
-- Checks.Data has one run of a check (performCheck in doPerformCheck, recoverCheck in
-- doRecoverCheck) with the change of the other kind that follows from it (changeStatusChanged).
-- The result of a run is an argument.
--
-- Times and durations are numbers of nanoseconds. The product of a delay and the backoff factor
-- is a parameter, and is taken to fit an int64. Not modelled are the HTTP API, the client and
-- the command line, the validation of a combined plan, the programs that check health, log
-- forwarding and the running of processes.
pub mod Base
pub mod Service
pub mod Ring
pub mod State
pub mod Runner
pub mod Plan
pub mod Identities
pub mod Checks
