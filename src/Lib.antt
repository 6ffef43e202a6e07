-- ===== src/Lib.antt =====
-- hetida designer: the models of workflows and revisions, the checks that keep them consistent, their
-- storage and the evaluation of workflows.
--
-- A workflow revision has operators (instances of other revisions), links between connectors, and
-- inputs, constants and outputs of its own. `WorkflowContent` validates and repairs all of this
-- together when it is constructed: names of operators are made unique, links that do not fit are
-- dropped, a loop is an error, unnecessary inputs and outputs are removed and missing ones added,
-- and links at the border of the workflow that nothing backs are dropped last.
--
-- - Io, Io.Checks: runtime/hetdesrun/persistence/models/io.py and operator.py, `names_unique` of
--   runtime/hetdesrun/models/util.py, the enums of runtime/hetdesrun/utils.py and
--   runtime/hdutils.py. A class that inherits is a record that opens the record of its base.
-- - Link: runtime/hetdesrun/persistence/models/link.py.
-- - Tables and Content: runtime/hetdesrun/persistence/models/workflow.py. Tables has the
--   dictionaries, Content.Names `operator_names_unique`, Content.LinkEnds
--   `link_connectors_match_operator_ios`, Content.Loops `links_acyclic_directed_graph`,
--   Content.Inputs and Content.Outputs the clean-up and the addition of inputs and outputs,
--   Content.OuterLinks `clean_up_outer_links`, and Content.Validate the whole in pydantic's order.
-- - Wiring: runtime/hetdesrun/models/wiring.py; Wiring.External is `ExternalType` of
--   runtime/hetdesrun/adapters/generic_rest/external_types.py, Wiring.Stripped is about
--   `strip_wirings`, Wiring.Accepted about what the validators accept, with a registry of source
--   adapters for inputs and one of sink adapters for outputs.
-- - Trafo: `TransformationRevision` (runtime/hetdesrun/persistence/models/transformation.py), with
--   the fitting of its interface to its content in Trafo.Interface and the validators, `release` and
--   `deprecate` in Trafo.Validators, and runtime/hetdesrun/trafoutils/dependencies.py; Trafo.Nesting
--   is runtime/hetdesrun/trafoutils/nestings.py, with the height of workflows in
--   Trafo.Nesting.Levels.Height, Trafo.Equality `.dict()` and `==`, and Trafo.Filter
--   runtime/hetdesrun/trafoutils/filter/mapping.py and params.py.
-- - Database: the tables of runtime/hetdesrun/persistence/dbmodels.py and the conversions to and from
--   rows; Database.Nestings is runtime/hetdesrun/persistence/dbservice/nesting.py, Database.Revisions and
--   Database.Update runtime/hetdesrun/persistence/dbservice/revision.py, with the selections in
--   Database.Selection; Database.Immutable is about writing over revisions that are released or disabled.
--   Rows hold dictionaries, which have no classes of connector objects. A session that fails leaves the tables as they were; reading validates
--   again. What a function reads through a session of its own is the tables as they are before the
--   transaction writes. `update_code` of runtime/hetdesrun/component/code.py is any function, since
--   it reads and writes Python.
-- - Engine: runtime/hetdesrun/runtime/engine/plain/workflow.py, the evaluation on demand. Engine.Reference
--   is the evaluation without a state, to which Engine.Complete and Engine.Sound compare it,
--   Engine.Wiring about the passing on of inputs in nodes that are wired already, as
--   `Workflow.add_inputs` leaves them, and
--   Engine.Ends and Engine.Loops are about its end. Evaluation awaits one result after the other, so
--   that it is sequential; a component's code is a function of its arguments.
-- - Execution: runtime/hetdesrun/models/component.py and workflow.py, and the conversions to them from
--   the persistence models; Execution.Converted is about when they succeed, Execution.Connections about
--   links.
-- - Samples: a concrete workflow at which the theorems are applied.
--
-- Exceptions are values of `Result`; the first error ends a validation, where pydantic collects
-- the errors and then raises. Objects that the code changes in place are replaced in the list that
-- holds them (Tables.Positions). The `while` loop of the cycle check runs on fuel, one round for
-- each vertex: a round removes a vertex. The recursion over nested workflows has as its fuel the
-- nested calls that Python allows. `uuid4` is a parameter, a function from the number of the call.
-- UUIDs are natural numbers, timestamps are instants counted from a fixed one, and JSON values are
-- their texts. A text is the list of its code points, and `re.sub` with the pattern of
-- `operator_names_unique` is written out.
--
-- Not modelled: checks of the length and the characters of names (`constr` types, and Python
-- identifiers), foreign keys, logging, adapters, the parsing and loading for the execution, the web
-- service and the frontend.
pub mod Content
pub mod Database
pub mod Engine
pub mod Execution
pub mod Io
pub mod Link
pub mod Prelude
pub mod Samples
pub mod Tables
pub mod Trafo
pub mod Wiring
