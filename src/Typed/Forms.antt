-- ===== src/Typed/Forms.antt =====
-- typed_json.py: the annotation forms that `_validate` supports. The suite's `Literal` choices are all
-- texts, and a `TypedDict` is the list of its fields.
use flatpak_blackbox_tests.Base.{String, Bool, false, ◌||◌, List, ◌==◌}

mutual
  pub data Annotation : Type 0 where
    json str bool_type int_type float_type none_type : Annotation
    typed_dict : Fields → Annotation
    literal : List String → Annotation
    list_of : Annotation → Annotation
    dict_of : Annotation → Annotation → Annotation
    union : Alternatives → Annotation
    unknown : Annotation

  -- A field's name, whether it is required, and its type.
  pub data Fields : Type 0 where
    no_fields : Fields
    declare : String → Bool → Annotation → Fields → Fields

  pub data Alternatives : Type 0 where
    none_of : Alternatives
    either : Annotation → Alternatives → Alternatives

abbrev pub declared : String → Fields → Bool
declared k no_fields = false
declared k (declare j req a fs) = j == k || declared k fs

-- A class with a base class: the base's fields, then its own.
abbrev pub extend : Fields → Fields → Fields
extend no_fields own = own
extend (declare k req a fs) own = declare k req a (extend fs own)
