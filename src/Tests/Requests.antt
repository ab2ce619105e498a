-- ===== src/Tests/Requests.antt =====
-- The requests at concrete inputs.
use pushfree.Common.{String, some, ◌≡◌}
use pushfree.Text.{append}
use pushfree.Text.Query.Decode.{bytes}
use pushfree.Text.Query.Scan.{query_value, AllChars, is_not}
use pushfree.Api.Urls.{limits_path, query_value-limits_path}

abbrev origin : String
origin = "http://localhost:8080"

no_question : AllChars (is_not b'?') origin
no_question = search

no_fragment : AllChars (is_not b'#') origin
no_fragment = search

query_value-limits_path_example :
    query_value "token" (append origin (limits_path "a&b?")) ≡ some (bytes "a&b?")
query_value-limits_path_example = query_value-limits_path origin no_question no_fragment "a&b?"
