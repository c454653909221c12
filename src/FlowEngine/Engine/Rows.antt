-- ===== src/FlowEngine/Engine/Rows.antt =====
-- What the nodes of a flow read and write in the rows: variables, tags, fields and enrollments.
use zernflow.Base.{
  ℕ, suc, max, Bool, ◌&&◌, Option, none, some, List, [], ◌∷◌, ◌++◌, any, if◌then◌else◌, ◌==◌,
  or_else,
}
use zernflow.Base.Json.{Text, Json, text_eq}
use zernflow.FlowEngine.Types.{
  DelayUnit, seconds, minutes, hours, days, other_unit, Variables, Context,
}
use zernflow.FlowEngine.Engine.Store.{FieldDefinition, Tag, FieldValue, Enrollment, Resume, Rows}

abbrev pub variables_of : Context → Variables
variables_of c = or_else c.variables []

-- `context.variables[name] = value`
unfoldable pub set_variable : Text → Json → Variables → Variables
set_variable k v [] = (k, v) ∷ []
set_variable k v ((j, w) ∷ vs) = if text_eq j k then (k, v) ∷ vs else (j, w) ∷ set_variable k v vs

abbrev pub multiplier : DelayUnit → ℕ
multiplier seconds = 1000
multiplier minutes = 60_000
multiplier hours = 3_600_000
multiplier days = 86_400_000
multiplier other_unit = 1000

abbrev pub add_resume : Resume → Rows → Rows
add_resume r rows = record rows { resumes = r ∷ rows.resumes }

abbrev pub tag_names : List Tag → ℕ → List (Option Text)
tag_names [] id = none ∷ []
tag_names (t ∷ ts) id = if t.id == id then some t.name ∷ [] else tag_names ts id

abbrev pub tags_of : ℕ → List Tag → List (ℕ × ℕ) → List (Option Text)
tags_of contact tags [] = []
tags_of contact tags ((c, t) ∷ rest) =
    (if c == contact then tag_names tags t else []) ++ tags_of contact tags rest

abbrev pub first_id : List Tag → ℕ
first_id [] = 0
first_id (t ∷ ts) = max (suc t.id) (first_id ts)

abbrev pub find_tag : ℕ → Text → List Tag → Option Tag
find_tag workspace name [] = none
find_tag workspace name (t ∷ ts) =
    if t.workspace_id == workspace && text_eq t.name name
    then some t
    else find_tag workspace name ts

-- The upsert of a tag by its workspace and name, with its id.
unfoldable pub upsert_tag : ℕ → Text → Rows → Rows × ℕ
upsert_tag workspace name rows = elim (find_tag workspace name rows.tags) [
  | some t ↦ (rows, t.id)
  | none ↦
      let id = first_id rows.tags in
      let tag : Tag = record { id = id; workspace_id = workspace; name = name } in
      (record rows { tags = tag ∷ rows.tags }, id)
]

abbrev pub is_pair : ℕ → ℕ → ℕ × ℕ → Bool
is_pair a b (c, d) = c == a && d == b

abbrev pub add_pair : ℕ → ℕ → List (ℕ × ℕ) → List (ℕ × ℕ)
add_pair a b pairs = if any (is_pair a b) pairs then pairs else (a, b) ∷ pairs

abbrev pub upsert_value : FieldValue → List FieldValue → List FieldValue
upsert_value v [] = v ∷ []
upsert_value v (u ∷ us) =
    if u.contact_id == v.contact_id && u.field_id == v.field_id
    then v ∷ us
    else u ∷ upsert_value v us

-- A contact is enrolled once in a sequence.
abbrev pub enroll : Enrollment → List Enrollment → List Enrollment
enroll e es =
    if any (λ x. x.sequence_id == e.sequence_id && x.contact_id == e.contact_id) es
    then es
    else e ∷ es

abbrev pub set_subscribed : ℕ → Bool → List (ℕ × Bool) → List (ℕ × Bool)
set_subscribed contact b [] = []
set_subscribed contact b ((c, old) ∷ rest) =
    (c, if c == contact then b else old) ∷ set_subscribed contact b rest

abbrev pub slug_of : List FieldDefinition → ℕ → Option Text
slug_of [] id = none
slug_of (d ∷ ds) id = if d.id == id then some d.slug else slug_of ds id
