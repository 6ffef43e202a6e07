-- ===== src/Trafo/Equality.antt =====
-- `.dict()` and `==` of `TransformationRevision` of
-- runtime/hetdesrun/persistence/models/transformation.py. What a model has beyond its dictionary is the
-- classes of the connector objects of links; models are equal where their dictionaries are.
use native.Mathlib.Decide.{ℕ_discrete}
use hetida_designer_structur.Prelude.{Bool, map, Eq, discrete_eq, ◌==◌}
use hetida_designer_structur.Link.{ConnectorClass, Link, Link-discrete}
use hetida_designer_structur.Wiring.{WorkflowWiring}
use hetida_designer_structur.Content.Validate.{WorkflowContent}
use hetida_designer_structur.Trafo.{TransformationRevision, Content, code, workflow_content}

unfoldable pub WorkflowContent-discrete : Discrete WorkflowContent
unfolding ℕ_discrete Link-discrete
WorkflowContent-discrete = hlevel (ℕ_discrete, Link-discrete)

unfoldable pub Content-discrete : Discrete Content
unfolding ℕ_discrete WorkflowContent-discrete
Content-discrete = hlevel (ℕ_discrete, WorkflowContent-discrete)

unfoldable pub WorkflowWiring-discrete : Discrete WorkflowWiring
unfolding ℕ_discrete
WorkflowWiring-discrete = hlevel ℕ_discrete

unfoldable pub TransformationRevision-discrete : Discrete TransformationRevision
unfolding ℕ_discrete Content-discrete WorkflowWiring-discrete
TransformationRevision-discrete = hlevel (ℕ_discrete, Content-discrete, WorkflowWiring-discrete)

instance abbrev pub TransformationRevision-eq : Eq TransformationRevision
TransformationRevision-eq = discrete_eq TransformationRevision-discrete

abbrev pub dict_of_link : Link → Link
dict_of_link l = record l {
  start = record l.start { class = ConnectorClass.plain };
  end = record l.end { class = ConnectorClass.plain };
}

abbrev pub dict_of_workflow_content : WorkflowContent → WorkflowContent
dict_of_workflow_content c = record c { links = map dict_of_link c.links }

unfoldable pub dict_of_content : Content → Content
dict_of_content (code text) = code text
dict_of_content (workflow_content c) = workflow_content (dict_of_workflow_content c)

abbrev pub dict : TransformationRevision → TransformationRevision
dict tr = record tr { content = dict_of_content tr.content }

abbrev pub same_revision : TransformationRevision → TransformationRevision → Bool
same_revision a b = dict a == dict b
