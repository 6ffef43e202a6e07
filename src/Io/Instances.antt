-- ===== src/Io/Instances.antt =====
-- `==` of the values that the models compare.
use native.Mathlib.Decide.{ℕ_discrete}
use hetida_designer_structur.Prelude.{◌≡◌, ◌⊎◌, inl, inr, refl, Option, Eq, Str, ℤ, discrete_eq}
use hetida_designer_structur.Io.{
  Uuid, DataType, InputType, Kind, State, Position, Io, TransformationInput, IoInterface,
  WorkflowContentIo, WorkflowContentDynamicInput,
}

unfoldable pub Str-discrete : Discrete Str
unfolding ℕ_discrete
Str-discrete = hlevel ℕ_discrete

unfoldable pub ℤ-discrete : Discrete ℤ
unfolding ℕ_discrete
ℤ-discrete = hlevel ℕ_discrete

unfoldable pub OptionStr-discrete : Discrete (Option Str)
unfolding ℕ_discrete
OptionStr-discrete = hlevel ℕ_discrete

unfoldable pub DataType-discrete : Discrete DataType
DataType-discrete = hlevel

unfoldable pub InputType-discrete : Discrete InputType
InputType-discrete = hlevel

unfoldable pub Kind-discrete : Discrete Kind
Kind-discrete = hlevel

unfoldable pub State-discrete : Discrete State
State-discrete = hlevel

unfoldable pub Position-discrete : Discrete Position
unfolding ℕ_discrete
Position-discrete = hlevel ℕ_discrete

unfoldable pub WorkflowContentIo-discrete : Discrete WorkflowContentIo
unfolding ℕ_discrete
WorkflowContentIo-discrete = hlevel ℕ_discrete

unfoldable pub WorkflowContentDynamicInput-discrete : Discrete WorkflowContentDynamicInput
unfolding ℕ_discrete
WorkflowContentDynamicInput-discrete = hlevel ℕ_discrete

unfoldable pub Io-discrete : Discrete Io
unfolding ℕ_discrete
Io-discrete = hlevel ℕ_discrete

unfoldable pub TransformationInput-discrete : Discrete TransformationInput
unfolding ℕ_discrete
TransformationInput-discrete = hlevel ℕ_discrete

unfoldable pub IoInterface-discrete : Discrete IoInterface
unfolding ℕ_discrete
IoInterface-discrete = hlevel ℕ_discrete

unfoldable pub OptionUuid-discrete : Discrete (Option Uuid)
unfolding ℕ_discrete
OptionUuid-discrete = hlevel ℕ_discrete

unfoldable pub OperatorKey-discrete : Discrete (Uuid × Uuid)
unfolding ℕ_discrete
OperatorKey-discrete = hlevel ℕ_discrete

unfoldable pub LinkKey-discrete : Discrete (Option Uuid × Uuid)
unfolding ℕ_discrete
LinkKey-discrete = hlevel ℕ_discrete

instance abbrev pub Str-eq : Eq Str
Str-eq = discrete_eq Str-discrete

instance abbrev pub ℤ-eq : Eq ℤ
ℤ-eq = discrete_eq ℤ-discrete

instance abbrev pub OptionStr-eq : Eq (Option Str)
OptionStr-eq = discrete_eq OptionStr-discrete

instance abbrev pub OptionUuid-eq : Eq (Option Uuid)
OptionUuid-eq = discrete_eq OptionUuid-discrete

instance abbrev pub DataType-eq : Eq DataType
DataType-eq = discrete_eq DataType-discrete

instance abbrev pub InputType-eq : Eq InputType
InputType-eq = discrete_eq InputType-discrete

instance abbrev pub Kind-eq : Eq Kind
Kind-eq = discrete_eq Kind-discrete

instance abbrev pub State-eq : Eq State
State-eq = discrete_eq State-discrete

instance abbrev pub Position-eq : Eq Position
Position-eq = discrete_eq Position-discrete

instance abbrev pub WorkflowContentIo-eq : Eq WorkflowContentIo
WorkflowContentIo-eq = discrete_eq WorkflowContentIo-discrete

instance abbrev pub WorkflowContentDynamicInput-eq : Eq WorkflowContentDynamicInput
WorkflowContentDynamicInput-eq = discrete_eq WorkflowContentDynamicInput-discrete

instance abbrev pub Io-eq : Eq Io
Io-eq = discrete_eq Io-discrete

instance abbrev pub TransformationInput-eq : Eq TransformationInput
TransformationInput-eq = discrete_eq TransformationInput-discrete

instance abbrev pub OperatorKey-eq : Eq (Uuid × Uuid)
OperatorKey-eq = discrete_eq OperatorKey-discrete

instance abbrev pub LinkKey-eq : Eq (Option Uuid × Uuid)
LinkKey-eq = discrete_eq LinkKey-discrete

pub Kind-cases : (k : Kind) → (k ≡ Kind.component) ⊎ (k ≡ Kind.workflow)
Kind-cases Kind.component = inl refl
Kind-cases Kind.workflow = inr refl
