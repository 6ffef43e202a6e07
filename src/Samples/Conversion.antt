-- ===== src/Samples/Conversion.antt =====
-- The sample workflow, converted for the execution.
use hetida_designer_structur.Prelude.{ℕ, none, [], ◌∷◌, In, All, true, ok, ◌≡◌, ◌↔◌, refl, codes}
use hetida_designer_structur.Io.{WorkflowContentIo, WorkflowContentDynamicInput}
use hetida_designer_structur.Execution.{
  WorkflowConnection, some_name, to_connection, connections, to_workflow_node,
}
use hetida_designer_structur.Execution.Converted.{
  Succeeds, IsNamed, IsInnerNamed, to_workflow_node-Succeeds,
}
use hetida_designer_structur.Execution.Connections.{ConnectsIn, connections_iff}
use hetida_designer_structur.Samples.{content}

to_workflow_node-Succeeds_example :
    Succeeds
      (to_workflow_node {SubNode = ℕ} (λ s. true) 92 (codes "r") (codes "1.0") none none [] content)
    ↔ (All (λ (w : WorkflowContentDynamicInput). IsNamed (λ s. true) w.name) content.inputs
        × All (λ (w : WorkflowContentIo). IsNamed (λ s. true) w.name) content.outputs
        × All IsInnerNamed content.links)
to_workflow_node-Succeeds_example =
    to_workflow_node-Succeeds {SubNode = ℕ} (λ s. true) 92 (codes "r") (codes "1.0") none none []
      content

abbrev connection : WorkflowConnection
connection = record {
  input_in_workflow_id = 1;
  input_name = codes "c";
  output_in_workflow_id = 2;
  output_name = codes "c";
}

connected : connections content.links ≡ ok (connection ∷ [])
unfolding connections to_connection some_name
connected = refl

connections_iff_example : In connection (connection ∷ []) ↔ ConnectsIn content.links connection
connections_iff_example = connections_iff content.links (connection ∷ []) connected connection
