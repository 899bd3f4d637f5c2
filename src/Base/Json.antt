-- ===== src/Base/Json.antt =====
-- JSON objects, as far as the source reads them: members by name, of which a text or a number matters.
use Prim.Native.Nat.{ℕ}
use Prim.Native.String.{String}
use mathlib.Core.Path.{◌≡◌, refl}
use mathlib.Core.Bool.{Bool, true, false}
use mathlib.Core.Option.{Option, none, some}
use mathlib.Core.List.{List, [], ◌∷◌}
use wp_auto.Base.Tests.{◌==◌, text_eq, ==_refl, if◌then◌else◌}

pub data Value : Type 0 where
  text : String → Value
  number : ℕ → Value
  other : String → Value

pub record Member : Type 0 where
  pub name : String
  pub value : Value

abbrev pub Object : Type 0
Object = List Member

-- `object[name]`
abbrev pub member : String → Object → Option Value
member key [] = none
member key (m ∷ ms) = let rest = member key ms in if m.name == key then some m.value else rest

-- `delete object[name]`
abbrev pub without : String → Object → Object
without key [] = []
without key (m ∷ ms) = let rest = without key ms in if m.name == key then rest else m ∷ rest

-- `{ ...object, name: value }`
abbrev pub with_member : String → Value → Object → Object
with_member key value o = record { name = key; value = value } ∷ without key o

-- `payload->>'name'` of a member that is a text; `typeof value === 'string'`
abbrev pub as_text : Option Value → Option String
as_text (some (text s)) = some s
as_text _ = none

abbrev pub has_member : String → Object → Bool
has_member key [] = false
has_member key (m ∷ ms) = let rest = has_member key ms in if m.name == key then true else rest

pub member-with_member :
    (key : String) (value : Value) (o : Object) → member key (with_member key value o) ≡ some value
member-with_member key value o = rw (==_refl key) refl
