-- ===== src/Lib.antt =====
-- Verification of Perfect Match QMS, a quality management system of Odoo add-ons (addons/pm_qms_*)
-- with a backup scheduler beside them (tools/backup).
--
-- The parts, and how they interact. The models of nonconformities, risks and CAPAs are state
-- machines: an action tests every record of the recordset, asks for the QMS manager group where it
-- must, writes the new state with a context flag that `write` demands, and logs an event with the
-- states before and after. Commercial licenses are signed documents: a document is validated against
-- a registry of keys, imported into the table of licenses, and its term and limits then decide
-- whether organizations, sites and users may be activated. The scheduler runs a backup under a lock,
-- keeps one status file, and a health command judges that file against the recovery point objective;
-- the backup tool deletes recovery points that are past their deadline, but for the newest of each
-- source. A controlled document has revisions of which one is active, by a workflow of its own. A
-- calibration event that is accepted returns its equipment to service, or quarantines it with an
-- impact assessment. An ISO 9001 migration is planned in a package that an approved readiness review
-- allows, and carried out under an execution record that an approved package allows; both seal what was
-- decided in a snapshot with its digest.
--
-- Which file models what:
--   Prelude      library names, Boolean tests on ℕ, lists, integers.
--   Odoo         what the add-ons take from Odoo: exceptions as a Result, loops over a recordset, the
--                environment of a call (user, groups, clock), truth and comparison of field values, and
--                `super().write` and `super().create` as the parameters Orm and Creation.
--   Event        addons/pm_qms_core/models/event.py: the values of a logged event, append-only guards.
--   Workflow     the write-and-log loop that the `_transition` methods share.
--   Capa         addons/pm_qms_capa/models. Types: the records. Structure: the fixed 5 Why slots and the
--                Is / Is Not rows (capa_why.py, capa_is_is_not.py, _initialize_analysis_structure).
--                Checks: provenance, alignment, root cause checks, overdue dates. Write: the locks of
--                `write` and `unlink`. Workflow: `_transition` and the `action_*` methods, each of which
--                is an Action with its test (check_action) and its arguments of `_transition` (move).
--                Actions: capa_action.py. Causes: capa_fishbone.py. Transitions, Locks, FiveWhy,
--                Initialization, History hold proofs.
--   Ncr          addons/pm_qms_ncr/models/nonconformity.py, in the same shape; Dates is about overdue.
--   Risk         addons/pm_qms_risk/models/risk.py, in the same shape; Scoring is about levels.
--   License      addons/pm_qms_license. Term: effective_temporal_state. Document: validate_document and
--                validate_runtime_document of services/license_service.py. Capacity: the searches, the
--                usage and the enforce_* checks of services/entitlement_service.py. Register: import and
--                write authority of models/license.py. Timeline, Checking, Trust, Seats and
--                Replacement hold proofs.
--   Document     addons/pm_qms_documents, one document with its revisions. Revisions and Activation:
--                the workflow, write and unlink of models/document_revision.py. Naming and Workflow:
--                _next_revision_name and the actions of models/document.py. Steps: the calls in any
--                order, with the event log. Writes, Sole, Invariants, Single, Approvals, History and
--                Fresh hold proofs.
--   Calibration  addons/pm_qms_calibration, one event with its equipment, the other events of it and
--                its impact assessments, beside those of all equipment. Assessments:
--                models/impact_assessment.py. Rollup: models/equipment.py. Checks: the constraints on
--                intervals and dates. Accept:
--                models/calibration_event.py; dateutil's relativedelta is a parameter. Service,
--                Acceptance and Failure hold proofs.
--   Backup       tools/backup/m29_scheduler.py. Schedule: slots and their constants. Status: the status
--                file and its fields. Run: run_once. Health: health. Slots, Record and Monitoring hold
--                proofs.
--   Recovery     tools/backup/m29_backup.py. Calendar: add_months, retention_deadline and datetimes as
--                microseconds. Retention: retention, over the manifests as they were verified, and the
--                directory as a list of files. Deadlines, Newest, Deletion, Survival, Completion hold
--                proofs.
--   Migration    addons/pm_qms_iso9001. Readiness with Readiness/Actions: models/transition_review.py.
--                Package with Package/Writes, Actions and Edits: models/migration_package.py.
--                Execution, Counts, Actions and Edits: models/migration_execution.py with its extensions
--                in models/migration_reconciliation.py, whose entries are a list of the execution, and
--                whose stored counts every write of the ORM recomputes; `_write_workflow` is the ORM's
--                write. Snapshots: JSON and SHA-256, which are parameters. Reach: the calls on an
--                execution in any order; Progress: the same with its calls counted. Control: what each
--                state requires. Pairs, Effects, Passed, Views, Kept, KeptEdits, Locks, Permanent,
--                Final, Handover and Eligible hold proofs, as do Effects, Control, Kept, Reach and Sealed
--                of Package. Samples: the records that its tests use.
-- The modules named Tests hold runs of the definitions on concrete inputs.
--
-- State and operations. A record of a model is a record of the fields that its rules read; a values
-- dictionary is a list of assignments, with one constructor for all the fields left out. A method
-- is a function into Result, whose `err` is the exception raised; an exception rolls the
-- transaction back, so it carries no records. Dates are day numbers, times are seconds (Odoo) or
-- microseconds (License, Backup, Recovery) since an epoch. The ORM is third-party code: Orm says
-- that a write that returns has stored exactly the values given, and may raise for any reason;
-- Creation says the same of a creation. Base64, Ed25519, ISO timestamps and the key registries are
-- parameters of the license checks, as are the lock, the backup command and the retention command
-- of the scheduler: each invocation carries their answers.
--
-- Bounds and fuel. The loops of the code that are modelled run over lists. One definition runs on
-- fuel, the digits of a number: their number is at most the number plus one, which is given, and
-- Document.Fresh shows that all digits are there. Numbers are ℕ, where the code subtracts only
-- after a comparison or takes max(0, ...); the likelihood and the impact of a risk, which a form
-- may set below zero, are integers.
--
-- Not modelled: packing, encryption, transfer and restoration of backups; attachments and mail
-- tracking, search views and wizards, XML and JavaScript; the numbers in the messages of the
-- capacity checks; row locks and concurrent transactions; parsing of the scheduler's configuration,
-- its subprocesses and its file writes; names of revisions beyond Latin-1, and a move of a revision
-- to another document; the add-ons for audits, KPIs, evidence, people, customer quality, cost of
-- quality, management review, implementation, packs, migration imports, the portal and AI; of ISO 9001,
-- all but the actions, writes and deletions of readiness reviews, migration packages and executions
-- and the preparation of the last two; of all three, the constraints that may make a write raise.
pub mod Prelude
pub mod Odoo
pub mod Event
pub mod Workflow
pub mod Capa
pub mod Ncr
pub mod Risk
pub mod License
pub mod Document
pub mod Calibration
pub mod Backup
pub mod Recovery
pub mod Migration
