-- ===== src/Storage/PropStream/Tests.antt =====
-- The theorems about streams at concrete fields.
use xynera_ots.Prelude.{ℕ, ◌≡◌, ◌⊎◌, ◌++◌, map, some, none, List, [], ◌∷◌, arith, drop}
use xynera_ots.Storage.PropStream.{read_string, write_string}
use xynera_ots.Storage.PropStream.Fields.{
  Field, kind, number, text, write_fields, read_fields, read_fields-write_fields, read_string_sound,
}

abbrev some_fields : List Field
some_fields = number 2 513 ∷ text (104 ∷ 105 ∷ []) ∷ number 1 7 ∷ []

read_fields-write_fields_example :
    read_fields (map kind some_fields) (write_fields some_fields [] ++ 9 ∷ [])
    ≡ some (some_fields, 9 ∷ [])
read_fields-write_fields_example = read_fields-write_fields some_fields (9 ∷ []) (omega arith)

read_string_sound_example :
    ((t : List ℕ) × ((read_string (1 ∷ 0 ∷ 65 ∷ 66 ∷ [])).value ≡ some t)
      × (write_string t [] ++ (read_string (1 ∷ 0 ∷ 65 ∷ 66 ∷ [])).rest ≡ 1 ∷ 0 ∷ 65 ∷ 66 ∷ []))
    ⊎ (((read_string (1 ∷ 0 ∷ 65 ∷ 66 ∷ [])).value ≡ none)
        × (((read_string (1 ∷ 0 ∷ 65 ∷ 66 ∷ [])).rest ≡ 1 ∷ 0 ∷ 65 ∷ 66 ∷ [])
            ⊎ ((read_string (1 ∷ 0 ∷ 65 ∷ 66 ∷ [])).rest ≡ drop 2 (1 ∷ 0 ∷ 65 ∷ 66 ∷ []))))
read_string_sound_example = read_string_sound (1 ∷ 0 ∷ 65 ∷ 66 ∷ []) (omega arith)
