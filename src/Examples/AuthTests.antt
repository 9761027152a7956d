-- ===== src/Examples/AuthTests.antt =====
-- Runs of the definitions behind the cookies, the commands and the provider's answers.
use geoplane.Base.{none, some, [], ◌∷◌, err, ◌≡◌, refl}
use geoplane.Base.Text.{trim, is_blank}
use geoplane.Base.Split.{split_on, break_at, includes_text, inner, ends_with}
use geoplane.Base.Json.{text, array, object, no_items, item, no_fields, field, get_field}
use geoplane.Auth.Keys.{
  Environment, read_var_from_env_file, read_var_from_lines, read_value, is_quoted,
}
use geoplane.Auth.Runtime.{read_cookie}
use geoplane.Commands.Input.{read_string_array}
use geoplane.Provider.Contract.{
  validate_provider_content, check_object, contains_governance, is_governance_key,
  is_governance_value, provider_contract_invalid, provider_empty_response,
}
use geoplane.Examples.Data.{marks}

abbrev file : Environment
file = record {
  process_env = λ _. none;
  env_file = some "# keys\r\nOTHER=1\r\n KEY = \" a=b \" \r\nKEY=later";
}

-- the first line of the name counts, its value without the quotes and the spaces
key_of_file : read_var_from_env_file file "KEY" ≡ some "a=b"
unfolding read_var_from_env_file read_var_from_lines read_value is_quoted split_on break_at
    ends_with inner trim is_blank
key_of_file = refl

no_key_of_file : read_var_from_env_file file "MISSING" ≡ none
unfolding read_var_from_env_file read_var_from_lines read_value is_quoted split_on break_at
    ends_with inner trim is_blank
no_key_of_file = refl

-- the first cookie of the name counts
cookie_of_header : read_cookie "a=1; b = 2=3 ;b=4" "b" ≡ some "2=3"
unfolding read_cookie split_on break_at trim
cookie_of_header = refl

-- one blank item spoils the list
bad_list :
    read_string_array
      (field "ids" (array (item (text " x ") (item (text " ") no_items))) no_fields)
      "ids"
    ≡ none
unfolding read_string_array get_field is_blank trim
bad_list = refl

good_list :
    read_string_array
      (field "ids" (array (item (text " x ") (item (text "y") no_items))) no_fields)
      "ids"
    ≡ some ("x" ∷ "y" ∷ [])
unfolding read_string_array get_field is_blank trim
good_list = refl

-- a verdict deep inside the answer is found before the unknown key is
smuggled :
    validate_provider_content marks (
      some (
        object (
          field "note"
            (object (field "list" (array (item (text " APPROVED ") no_items)) no_fields))
            no_fields)))
    ≡ err provider_contract_invalid
unfolding validate_provider_content check_object contains_governance is_governance_key
    is_governance_value includes_text trim
smuggled = refl

no_answer : validate_provider_content marks (some (object no_fields)) ≡ err provider_empty_response
unfolding validate_provider_content check_object
no_answer = refl
