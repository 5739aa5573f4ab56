-- ===== src/Json/Tree.antt =====
-- A concrete instance of the JSON interface, for tests: values with texts, flags, lists and objects.
use nopal.Prelude.{String, Bool, Option, none, some, List, [], ◌∷◌, ◌==◌, if◌then◌else◌, concat}
use nopal.Json.{Json}

mutual
  pub data Tree : Type 0 where
    word : String → Tree
    boolean : Bool → Tree
    array : Entries → Tree
    object : Fields → Tree

  pub data Entries : Type 0 where
    no_entry : Entries
    entry : Tree → Entries → Entries

  pub data Fields : Type 0 where
    no_field : Fields
    field : String → Tree → Fields → Fields

unfoldable pub tree_str : Tree → Option String
tree_str (word s) = some s
tree_str _ = none

unfoldable pub tree_bool : Tree → Option Bool
tree_bool (boolean b) = some b
tree_bool _ = none

unfoldable pub tree_object : Tree → Option Fields
tree_object (object fields) = some fields
tree_object _ = none

unfoldable pub tree_entries : Entries → List Tree
tree_entries no_entry = []
tree_entries (entry value rest) = value ∷ tree_entries rest

unfoldable pub tree_array : Tree → Option (List Tree)
tree_array (array entries) = some (tree_entries entries)
tree_array _ = none

unfoldable pub field_value : Fields → String → Option Tree
field_value no_field key = none
field_value (field name value rest) key =
    let later = field_value rest key in if name == key then some value else later

unfoldable pub field_names : Fields → List String
field_names no_field = []
field_names (field name value rest) = name ∷ field_names rest

unfoldable pub field_list : Fields → List (String × Tree)
field_list no_field = []
field_list (field name value rest) = (name, value) ∷ field_list rest

abbrev pub plain : Json
plain = record {
  Value = Tree;
  Object = Fields;
  as_bool = tree_bool;
  as_str = tree_str;
  as_object = tree_object;
  as_array = tree_array;
  get = field_value;
  keys = field_names;
  entries = field_list;
  display = λ value. "value";
  debug = λ s. concat ("\"" ∷ s ∷ "\"" ∷ []);
  debug_value = λ value. "value";
  decimal = λ n. "n";
}
