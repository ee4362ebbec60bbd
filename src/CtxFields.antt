-- ===== src/CtxFields.antt =====
-- ctx_fields.go: the log fields that a context carries. A context is its fields and the rest; each
-- WithFields makes a slice of its own, so a list stands for it. zerolog's context and its three
-- methods are parameters.
use tel.Base.{
  ℕ, Bool, false, Option, some, List, [], ◌∷◌, ◌++◌, ◌≡◌, refl, ◌∙◌, ap, get_or, append_empty, ◌==◌,
  if◌then◌else◌,
}
use tel.Base.Int.{ℤ, pos}
use tel.Base.Text.{Text}

abbrev pub field_kind_str : ℕ
field_kind_str = 1

abbrev pub field_kind_int : ℕ
field_kind_int = 2

abbrev pub field_kind_bool : ℕ
field_kind_bool = 3

pub record Field : Type 0 where
  pub key : Text
  pub str : Text
  pub int : ℤ
  pub kind : ℕ
  pub bool : Bool

abbrev pub str_field : Text → Text → Field
str_field key val = record {
  key = key;
  str = val;
  int = pos 0;
  kind = field_kind_str;
  bool = false;
}

abbrev pub int_field : Text → ℤ → Field
int_field key val = record { key = key; str = []; int = val; kind = field_kind_int; bool = false }

abbrev pub bool_field : Text → Bool → Field
bool_field key val = record { key = key; str = []; int = pos 0; kind = field_kind_bool; bool = val }

pub record Context (R : Type 0) : Type 0 where
  pub fields : Option (List Field)
  pub rest : R

module _ {R : Type 0} where
  unfoldable pub fields_from_ctx : Context R → List Field
  fields_from_ctx ctx = get_or ctx.fields []

  unfoldable pub with_fields : Context R → List Field → Context R
  with_fields ctx [] = ctx
  with_fields ctx (f ∷ fields) = record ctx { fields = some (fields_from_ctx ctx ++ (f ∷ fields)) }

module _ {C : Type 0} (str : C → Text → Text → C) (int64 : C → Text → ℤ → C)
    (bool : C → Text → Bool → C) where
  -- the switch on one field
  unfoldable pub apply_field : C → Field → C
  apply_field c f =
      if f.kind == field_kind_str
      then str c f.key f.str
      else if f.kind == field_kind_int
      then int64 c f.key f.int
      else if f.kind == field_kind_bool
      then bool c f.key f.bool
      else c

  unfoldable pub apply_fields : C → List Field → C
  apply_fields c [] = c
  apply_fields c (f ∷ fields) = apply_fields (apply_field c f) fields

  apply_fields-append :
      (fs gs : List Field) (c : C) → apply_fields c (fs ++ gs) ≡ apply_fields (apply_fields c fs) gs
  unfolding apply_fields
  apply_fields-append [] gs c = refl
  apply_fields-append (f ∷ fs) gs c = apply_fields-append fs gs (apply_field c f)

  fields_from_ctx-with_fields :
      {R : Type 0} (ctx : Context R) (fs : List Field)
      → fields_from_ctx (with_fields ctx fs) ≡ fields_from_ctx ctx ++ fs
  unfolding fields_from_ctx with_fields
  fields_from_ctx-with_fields ctx [] = rw (append_empty (fields_from_ctx ctx)) refl
  fields_from_ctx-with_fields ctx (f ∷ fs) = refl

  -- Nested calls of WithFields are applied in their order: what a logger of the inner context gets
  -- is the parent's fields, then those of the outer call, then those of the inner one.
  pub apply_fields-with_fields :
      {R : Type 0} (ctx : Context R) (outer inner : List Field) (c : C)
      → apply_fields c (fields_from_ctx (with_fields (with_fields ctx outer) inner))
        ≡ apply_fields (apply_fields (apply_fields c (fields_from_ctx ctx)) outer) inner
  apply_fields-with_fields ctx outer inner c =
      rw
        (
          fields_from_ctx-with_fields (with_fields ctx outer) inner,
          fields_from_ctx-with_fields ctx outer,
        )
        (apply_fields-append (fields_from_ctx ctx ++ outer) inner c
          ∙ ap (λ d. apply_fields d inner) (apply_fields-append (fields_from_ctx ctx) outer c))
