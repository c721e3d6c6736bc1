-- ===== src/Lib.antt =====
-- Models of the controller of this repository (hollysys_controller/), which takes a delivery run
-- through its stages: specification, plan, tasks, implementation, test and code review. An agent works
-- on one card at a time, and the controller reads its completion, routes it to the next card, and
-- keeps what it must not forget in a SQLite database.
--
-- Parts, and how they interact:
-- * Workflow models workflow.py, with the completion contract of models.py and the counts of
--   service.py. Workflow.Stages has the enumerations and tables, Workflow.Completion the fields that
--   the contract and the routing read, Workflow.Gate and Workflow.Contract one definition per rule
--   of `validate_stage_contract`, Workflow.Routing `route_completion`, and Workflow.Progress the
--   loop around it: an accepted completion joins the history, reviews and implementations are
--   counted, and the route opens the next card (`_review_attempts_by_stage`,
--   `_code_modification_count` and the call of `route_completion` in service.py).
-- * Store models tables of store.py, one module per table or group: Store.RunControl the state of
--   a run (`transition_run`, `mark_completed`, `mark_flow_completed`, `set_run_exception`),
--   Store.Abort the abort requests, Store.MergeWait the blockers of a merge request, Store.Reconcile
--   the queue of runs to reconcile, Store.Operations the idempotency records, Store.Requests the
--   commands and Store.Outbox the messages. Store.Attempts has the cards of a run with their
--   attempts and their runtime, Store.Identity the records of runs, their deliveries and the event
--   cursors, and Store.Outage the outages of dependencies with their circuits. Store.Startup has the
--   queries that stop the controller at its start, and Store.History the histories of all methods on
--   run_control, abort_requests and merge_wait.
-- * Service.Operation models `_operation` of service.py, which makes a change outside the database
--   under a record of Store.Operations and under the state of Store.RunControl.
-- * Service.Dependencies models what service.py does about the dependencies, over Store.Outage,
--   Store.RunControl and Store.Outbox: Service.Dependencies.Handling `_handle_dependency_error` and
--   `_record_request_dependency_error`, which open an outage and degrade the run, and
--   Service.Dependencies.Recovery `_recover_gitlab_circuit` and `_recover_run_dependency` with
--   `_finish_dependency_recovery`, which take runs up again. Their theorem is about `alone`, where
--   no other connection writes between the read and the write of a transition.
-- * Service.Reconciling models `_reconcile_run_with_policy` of service.py, which turns the errors
--   of one reconciliation into states of its run, and Service.Reconciling.Queue
--   `consume_reconcile_once`, which does so for the next run of Store.Reconcile. `_reconcile_run`
--   itself is an argument: it may write all tables, and it may raise.
-- * Service.Flush models `_flush_outbox_once` of service.py, which sends the messages of
--   Store.Outbox that are due, with the notifier as an argument.
-- * Validators models validators.py: Validators.Documents the checks of the task documents, from
--   what the regular expressions find in them, and Validators.Graph the search for cycles.
-- * Table and Exec are what these share: a table with its primary key, and methods that may raise.
--   `connect` is ControllerStore.connect: a block that raises is closed without commit. Prelude has
--   the names, tests and texts in common, and Examples applies the theorems to concrete values.
--
-- Conventions: one statement of SQL is one step. `transition_run` reads before it writes, and
-- SQLite takes no lock for the read, so it has a parameter `meanwhile` for what other connections
-- write in between; histories allow there any history of the same methods. `finish_reconcile` has
-- such a parameter between its SELECT and its UPDATE too. `claim_reconcile` holds BEGIN IMMEDIATE.
-- The other methods that read before they write, as those of Store.Outage and Store.Attempts, are
-- one step: no other connection writes inside them. A call of Service.Dependencies or
-- Service.Reconciling has one time for all its reads of the clock, but for the end of a
-- reconciliation. Times and backoffs are whole seconds; the backoff of a dependency is a float in
-- Python, and its overflow is an error of Store.Outage: the product with 2 ** (failures - 1)
-- overflows from 1025 failures on, whatever the settings. JSON is a type with `dumps`, a `sorted`
-- dumps and `loads`, which are parameters: the laws used are that `loads` reads back what `dumps`
-- wrote and that `dumps` writes no empty text. `uuid4`, the order of texts in SQLite, the texts of
-- notices and the health of GitLab are arguments. Every function here is structural but the
-- depth-first search, which has fuel for a stack of all tasks and is proved to end with it; the
-- loop over cards is a relation whose length is bounded by the limits and by the number of its
-- repeats.
--
-- Not modelled: the rest of service.py (the body of `_reconcile_run`, Kanban cards, GitLab,
-- messages, the recovery of requests), the boots, preflights and validation records of store.py,
-- the digests of validators.py, the clients gitlab.py, git_auth.py and kanban.py, the workers, the
-- entry points and the configuration. Of the start-up check, only the queries on run_control are
-- here. `create_abort_request` takes a sender and a reason that are not empty, as its callers do;
-- the action of an operation does not write the row of its own key.
pub mod Prelude
pub mod Table
pub mod Exec
pub mod Store
pub mod Workflow
pub mod Service
pub mod Validators
pub mod Examples
