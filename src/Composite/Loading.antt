-- ===== src/Composite/Loading.antt =====
-- The rows of loadComposite of internal/app/composite.go as they come, with the JSON of each mapping.
use lite_api.Common.{if◌then◌else◌, Text, String, List, [], ◌∷◌, Option, none, some}
use lite_api.Common.Errors.{Result, ok, err, ◌>>=◌, api_error}
use lite_api.Models.{supported_platform}
use lite_api.Composite.{load_owners}

-- A mapping that cannot be read ends the loop, unless its row is of a platform that is passed over.
unfoldable pub read_rows :
    List (String × Option (List (Text × Text))) → Result (List (String × List (Text × Text)))
read_rows [] = ok []
read_rows ((platform, none) ∷ rows) =
    if supported_platform platform
    then err (api_error 503 "invalid account model mapping")
    else read_rows rows
read_rows ((platform, some mapping) ∷ rows) = do
  rest ← read_rows rows
  ok ((platform, mapping) ∷ rest)

unfoldable pub load_composite_owners :
    List (String × Option (List (Text × Text))) → Result (List (Text × String))
load_composite_owners rows = do read ← read_rows rows; ok (load_owners read [])
