-- ===== src/Wiring/External.antt =====
-- `ExternalType` of runtime/hetdesrun/adapters/generic_rest/external_types.py: an enum each of whose
-- members has a canonical value and further ones, and reads two attributes off the canonical one.
use native.Mathlib.Decide.{ℕ_discrete}
use hetida_designer_structur.Prelude.{
  Option, some, none, List, [], ◌∷◌, Bool, true, ◌==◌, ◌≡◌, ◌↔◌, refl, Eq, nat_eq, discrete_eq, sym,
  ◌∙◌, Str, codes, In, All, All-iff, contains, contains_iff, arith, Bool-cases, inl, inr, subst,
  if◌then◌else◌,
}
use hetida_designer_structur.Io.Instances.{Str-eq, Str-discrete}

pub data ExternalType : Type 0 where
  metadata_int metadata_float metadata_str metadata_boolean metadata_any : ExternalType
  timeseries_int timeseries_float timeseries_str timeseries_boolean timeseries_any : ExternalType
  series_int series_float series_str series_boolean series_any : ExternalType
  multitsframe dataframe : ExternalType

pub data GeneralType : Type 0 where
  metadata timeseries series multitsframe dataframe : GeneralType

pub data ValueDataType : Type 0 where
  int float string boolean any : ValueDataType

unfoldable pub GeneralType-discrete : Discrete (Option GeneralType)
GeneralType-discrete = hlevel

instance abbrev pub GeneralType-eq : Eq (Option GeneralType)
GeneralType-eq = discrete_eq GeneralType-discrete

abbrev pub members : List ExternalType
members =
    ExternalType.metadata_int ∷ ExternalType.metadata_float ∷ ExternalType.metadata_str
    ∷ ExternalType.metadata_boolean ∷ ExternalType.metadata_any ∷ ExternalType.timeseries_int
    ∷ ExternalType.timeseries_float ∷ ExternalType.timeseries_str ∷ ExternalType.timeseries_boolean
    ∷ ExternalType.timeseries_any ∷ ExternalType.series_int ∷ ExternalType.series_float
    ∷ ExternalType.series_str ∷ ExternalType.series_boolean ∷ ExternalType.series_any
    ∷ ExternalType.multitsframe ∷ ExternalType.dataframe ∷ []

-- The canonical value, and the others.
abbrev pub all_values : ExternalType → Str × List Str
all_values ExternalType.metadata_int = (codes "metadata(int)", codes "metadata(integer)" ∷ [])
all_values ExternalType.metadata_float = (codes "metadata(float)", [])
all_values ExternalType.metadata_str = (codes "metadata(string)", codes "metadata(str)" ∷ [])
all_values ExternalType.metadata_boolean = (codes "metadata(boolean)", codes "metadata(bool)" ∷ [])
all_values ExternalType.metadata_any = (codes "metadata(any)", [])
all_values ExternalType.timeseries_int = (codes "timeseries(int)", codes "timeseries(integer)" ∷ [])
all_values ExternalType.timeseries_float = (codes "timeseries(float)", [])
all_values ExternalType.timeseries_str = (codes "timeseries(string)", codes "timeseries(str)" ∷ [])
all_values ExternalType.timeseries_boolean =
    (codes "timeseries(boolean)", codes "timeseries(bool)" ∷ [])
all_values ExternalType.timeseries_any = (codes "timeseries(any)", codes "timeseries(object)" ∷ [])
all_values ExternalType.series_int = (codes "series(int)", codes "series(integer)" ∷ [])
all_values ExternalType.series_float = (codes "series(float)", [])
all_values ExternalType.series_str = (codes "series(string)", codes "series(str)" ∷ [])
all_values ExternalType.series_boolean = (codes "series(boolean)", codes "series(bool)" ∷ [])
all_values ExternalType.series_any = (codes "series(any)", codes "series(object)" ∷ [])
all_values ExternalType.multitsframe = (codes "multitsframe", [])
all_values ExternalType.dataframe = (codes "dataframe", [])

abbrev pub value : ExternalType → Str
value t = (all_values t).0

-- `ExternalType(text)`, which looks the text up in `_value2member_map_`
unfoldable pub from_value : List ExternalType → Str → Option ExternalType
from_value [] text = none
from_value (t ∷ ts) text =
    if contains text (value t ∷ (all_values t).1) then some t else from_value ts text

-- `text.split("(", 1)[0]`
unfoldable pub before_parenthesis : Str → Str
before_parenthesis [] = []
before_parenthesis (c ∷ s) = if c == 40 then [] else c ∷ before_parenthesis s

-- `text.endswith(suffix)`
unfoldable pub ends_with : Str → Str → Bool
ends_with suffix [] = suffix == []
ends_with suffix (c ∷ s) = if suffix == (c ∷ s) then true else ends_with suffix s

-- `GeneralType(text)`
unfoldable pub general_type_of : Str → Option GeneralType
general_type_of text =
    if text == codes "metadata"
    then some GeneralType.metadata
    else if text == codes "timeseries"
    then some GeneralType.timeseries
    else if text == codes "series"
    then some GeneralType.series
    else if text == codes "multitsframe"
    then some GeneralType.multitsframe
    else if text == codes "dataframe"
    then some GeneralType.dataframe
    else none

-- `store_general_type`; `none` is the `ValueError` of a text that is no `GeneralType`
unfoldable pub general_type : ExternalType → Option GeneralType
general_type t = general_type_of (before_parenthesis (value t))

-- `store_value_datatypes`
unfoldable pub value_datatype : ExternalType → Option ValueDataType
value_datatype t =
    if ends_with (codes "(string)") (value t)
    then some ValueDataType.string
    else if ends_with (codes "(float)") (value t)
    then some ValueDataType.float
    else if ends_with (codes "(int)") (value t)
    then some ValueDataType.int
    else if ends_with (codes "(boolean)") (value t)
    then some ValueDataType.boolean
    else if ends_with (codes "(any)") (value t)
    then some ValueDataType.any
    else none

abbrev Reads : ExternalType → Str → Type 0
Reads t v = from_value members v ≡ some t

Reads-All : (t : ExternalType) → All (Reads t) (value t ∷ (all_values t).1)
unfolding from_value Str-discrete ℕ_discrete
Reads-All ExternalType.metadata_int = (refl, (refl, tt))
Reads-All ExternalType.metadata_float = (refl, tt)
Reads-All ExternalType.metadata_str = (refl, (refl, tt))
Reads-All ExternalType.metadata_boolean = (refl, (refl, tt))
Reads-All ExternalType.metadata_any = (refl, tt)
Reads-All ExternalType.timeseries_int = (refl, (refl, tt))
Reads-All ExternalType.timeseries_float = (refl, tt)
Reads-All ExternalType.timeseries_str = (refl, (refl, tt))
Reads-All ExternalType.timeseries_boolean = (refl, (refl, tt))
Reads-All ExternalType.timeseries_any = (refl, (refl, tt))
Reads-All ExternalType.series_int = (refl, (refl, tt))
Reads-All ExternalType.series_float = (refl, tt)
Reads-All ExternalType.series_str = (refl, (refl, tt))
Reads-All ExternalType.series_boolean = (refl, (refl, tt))
Reads-All ExternalType.series_any = (refl, (refl, tt))
Reads-All ExternalType.multitsframe = (refl, tt)
Reads-All ExternalType.dataframe = (refl, tt)

from_value-values :
    (ts : List ExternalType) (text : Str) (t : ExternalType)
    → from_value ts text ≡ some t
    → In text (value t ∷ (all_values t).1)
unfolding from_value
from_value-values [] text t h = absurd (ground arith)
from_value-values (x ∷ ts) text t h =
    elim (Bool-cases (contains text (value x ∷ (all_values x).1))) [
      | inl there ↦
          let same : x ≡ t = ground arith in
          subst (λ y. In text (value y ∷ (all_values y).1)) same
            ((contains_iff text (value x ∷ (all_values x).1)).0 there)
      | inr missing ↦ from_value-values ts text t (ground arith)
    ]

-- A text is read as a member exactly when it is the canonical value of the member or one of its
-- other values; so that writing a member and reading it gives it back, and no text has two readings.
pub from_value_iff :
    (text : Str) (t : ExternalType)
    → (from_value members text ≡ some t) ↔ In text (value t ∷ (all_values t).1)
from_value_iff text t = (
  λ h. from_value-values members text t h,
  λ m. (All-iff (Reads t) (value t ∷ (all_values t).1)).0 (Reads-All t) text m,
)

-- The member that has the two attributes.
abbrev of_attributes : Option GeneralType → Option ValueDataType → Option ExternalType
of_attributes (some GeneralType.multitsframe) none = some ExternalType.multitsframe
of_attributes (some GeneralType.dataframe) none = some ExternalType.dataframe
of_attributes (some GeneralType.metadata) (some ValueDataType.int) = some ExternalType.metadata_int
of_attributes (some GeneralType.metadata) (some ValueDataType.float) =
    some ExternalType.metadata_float
of_attributes (some GeneralType.metadata) (some ValueDataType.string) =
    some ExternalType.metadata_str
of_attributes (some GeneralType.metadata) (some ValueDataType.boolean) =
    some ExternalType.metadata_boolean
of_attributes (some GeneralType.metadata) (some ValueDataType.any) = some ExternalType.metadata_any
of_attributes (some GeneralType.timeseries) (some ValueDataType.int) =
    some ExternalType.timeseries_int
of_attributes (some GeneralType.timeseries) (some ValueDataType.float) =
    some ExternalType.timeseries_float
of_attributes (some GeneralType.timeseries) (some ValueDataType.string) =
    some ExternalType.timeseries_str
of_attributes (some GeneralType.timeseries) (some ValueDataType.boolean) =
    some ExternalType.timeseries_boolean
of_attributes (some GeneralType.timeseries) (some ValueDataType.any) =
    some ExternalType.timeseries_any
of_attributes (some GeneralType.series) (some ValueDataType.int) = some ExternalType.series_int
of_attributes (some GeneralType.series) (some ValueDataType.float) = some ExternalType.series_float
of_attributes (some GeneralType.series) (some ValueDataType.string) = some ExternalType.series_str
of_attributes (some GeneralType.series) (some ValueDataType.boolean) =
    some ExternalType.series_boolean
of_attributes (some GeneralType.series) (some ValueDataType.any) = some ExternalType.series_any
of_attributes g d = none

attributes_read :
    (t : ExternalType)
    → ((g : GeneralType) × (general_type t ≡ some g))
      × (of_attributes (general_type t) (value_datatype t) ≡ some t)
unfolding general_type general_type_of before_parenthesis value_datatype ends_with Str-discrete
    ℕ_discrete
attributes_read ExternalType.metadata_int = ((GeneralType.metadata, refl), refl)
attributes_read ExternalType.metadata_float = ((GeneralType.metadata, refl), refl)
attributes_read ExternalType.metadata_str = ((GeneralType.metadata, refl), refl)
attributes_read ExternalType.metadata_boolean = ((GeneralType.metadata, refl), refl)
attributes_read ExternalType.metadata_any = ((GeneralType.metadata, refl), refl)
attributes_read ExternalType.timeseries_int = ((GeneralType.timeseries, refl), refl)
attributes_read ExternalType.timeseries_float = ((GeneralType.timeseries, refl), refl)
attributes_read ExternalType.timeseries_str = ((GeneralType.timeseries, refl), refl)
attributes_read ExternalType.timeseries_boolean = ((GeneralType.timeseries, refl), refl)
attributes_read ExternalType.timeseries_any = ((GeneralType.timeseries, refl), refl)
attributes_read ExternalType.series_int = ((GeneralType.series, refl), refl)
attributes_read ExternalType.series_float = ((GeneralType.series, refl), refl)
attributes_read ExternalType.series_str = ((GeneralType.series, refl), refl)
attributes_read ExternalType.series_boolean = ((GeneralType.series, refl), refl)
attributes_read ExternalType.series_any = ((GeneralType.series, refl), refl)
attributes_read ExternalType.multitsframe = ((GeneralType.multitsframe, refl), refl)
attributes_read ExternalType.dataframe = ((GeneralType.dataframe, refl), refl)

-- Every member has a general type, and no other member has both its general type and its value
-- datatype.
pub attributes_determine :
    (t : ExternalType)
    → ((g : GeneralType) × (general_type t ≡ some g))
      × ((u : ExternalType)
          → general_type t ≡ general_type u
          → value_datatype t ≡ value_datatype u
          → t ≡ u)
attributes_determine t = (
  (attributes_read t).0,
  λ u g d.
      let e : of_attributes (general_type t) (value_datatype t)
          ≡ of_attributes (general_type u) (value_datatype u) =
        rw (g, d) refl in
      let r : some t ≡ some u = sym (attributes_read t).1 ∙ e ∙ (attributes_read u).1 in
      ground (arith, r),
)
