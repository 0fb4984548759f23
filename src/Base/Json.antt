-- ===== src/Base/Json.antt =====
-- JSON values, and the text of one with the keys of each object in order. How the engine writes a text
-- in quotes, and how `localeCompare` orders two keys, are parameters; a number is kept as its text.
use Prim.Native.String
use Prim.Native.String.{String}
use mathlib.Core.Bool.{Bool, true, false}
use mathlib.Core.List.{List, [], ◌∷◌}
use legacy_vault.Base.Tests.{if◌then◌else◌}

mutual
  pub data Json : Type 0 where
    null : Json
    bool : Bool → Json
    num : String → Json
    str : String → Json
    arr : Items → Json
    obj : Fields → Json

  pub data Items : Type 0 where
    nil : Items
    cons : Json → Items → Items

  pub data Fields : Type 0 where
    end : Fields
    field : String → Json → Fields → Fields

-- `quote` is JSON.stringify on texts; `precedes a b` is `a.localeCompare(b) <= 0`.
pub record Engine : Type 0 where
  pub quote : String → String
  pub precedes : String → String → Bool

abbrev pub concat : String → String → String
concat = String.◌++◌

abbrev pub join : List String → String
join [] = ""
join (s ∷ []) = s
join (s ∷ t ∷ rest) = concat s (concat "," (join (t ∷ rest)))

module _ (engine : Engine) where
  -- The stable sort by key.
  unfoldable pub insert_entry : String × String → List (String × String) → List (String × String)
  insert_entry entry [] = entry ∷ []
  insert_entry (k, v) ((j, w) ∷ rest) =
      if engine.precedes k j then (k, v) ∷ (j, w) ∷ rest else (j, w) ∷ insert_entry (k, v) rest

  unfoldable pub sort_entries : List (String × String) → List (String × String)
  unfolding insert_entry
  sort_entries [] = []
  sort_entries (entry ∷ rest) = insert_entry entry (sort_entries rest)

  abbrev pub write_entries : List (String × String) → List String
  write_entries [] = []
  write_entries ((k, v) ∷ rest) = concat (engine.quote k) (concat ":" v) ∷ write_entries rest

  unfoldable mutual
    unfolding sort_entries

    -- `canonicalize`; the entries of an object are written before they are sorted by key.
    pub canonicalize : Json → String
    canonicalize null = "null"
    canonicalize (bool true) = "true"
    canonicalize (bool false) = "false"
    canonicalize (num text) = text
    canonicalize (str text) = engine.quote text
    canonicalize (arr items) = concat "[" (concat (join (canonical_items items)) "]")
    canonicalize (obj fields) =
        concat "{" (concat (join (write_entries (sort_entries (canonical_fields fields)))) "}")

    pub canonical_items : Items → List String
    canonical_items nil = []
    canonical_items (cons v items) = canonicalize v ∷ canonical_items items

    pub canonical_fields : Fields → List (String × String)
    canonical_fields end = []
    canonical_fields (field k v fields) = (k, canonicalize v) ∷ canonical_fields fields
