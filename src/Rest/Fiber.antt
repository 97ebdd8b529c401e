-- ===== src/Rest/Fiber.antt =====
-- fiber-rest/http_response_writer.go: the response that a handler sends.
pub mod Middlewares
pub mod Options
pub mod Server
pub mod Wrapper
pub mod Writer
use candi_plugin.Base.{
  ℕ, ◌≡◌, refl, Bool, true, false, List, [], ◌∷◌, ◌++◌, Option, none, some, arith, ltb,
  if◌then◌else◌,
}
use candi_plugin.Go.Text.{Bytes, codes}
use candi_plugin.Go.Outcome.{Outcome, ok, panics}
use candi_plugin.Candi.{Error, Attributes}

-- A parameter of NewHTTPResponse, by its dynamic type: candishared.Meta or a pointer to one, a
-- candihelper.MultiError by its map, another error, or anything else.
pub data Param : Type 0 where
  meta_of : Bytes → Param
  multi_error : Attributes → Param
  error : Error → Param
  other : Bytes → Param

pub record HttpResponse : Type 0 where
  pub success : Bool
  pub code : ℕ
  pub message : Bytes
  pub meta : Option Bytes
  pub data_value : Option Bytes
  pub errors : Option Attributes

-- The loop over the parameters: each writes its field, over what an earlier one wrote.
unfoldable pub fill : List Param → HttpResponse → HttpResponse
fill [] r = r
fill (meta_of v ∷ ps) r = fill ps (record r { meta = some v })
fill (multi_error m ∷ ps) r = fill ps (record r { errors = some m })
fill (error e ∷ ps) r = fill ps (record r { errors = some ((codes "detail", e) ∷ []) })
fill (other v ∷ ps) r = fill ps (record r { data_value = some v })

-- new(HTTPResponse)
abbrev pub unset : HttpResponse
unset = record {
  success = false;
  code = 0;
  message = [];
  meta = none;
  data_value = none;
  errors = none;
}

-- NewHTTPResponse
unfoldable pub new_http_response : ℕ → Bytes → List Param → HttpResponse
new_http_response code message params =
    let r = fill params unset in
    let r' = if ltb code 400 then record r { success = true } else r in
    record r' { code = code; message = message }

-- The field that a parameter writes to `data`, and to `errors`, the last of them first.
abbrev pub last_data : List Param → Option Bytes → Option Bytes
last_data [] x = x
last_data (other v ∷ ps) x = last_data ps (some v)
last_data (meta_of v ∷ ps) x = last_data ps x
last_data (multi_error m ∷ ps) x = last_data ps x
last_data (error e ∷ ps) x = last_data ps x

abbrev pub last_errors : List Param → Option Attributes → Option Attributes
last_errors [] x = x
last_errors (other v ∷ ps) x = last_errors ps x
last_errors (meta_of v ∷ ps) x = last_errors ps x
last_errors (multi_error m ∷ ps) x = last_errors ps (some m)
last_errors (error e ∷ ps) x = last_errors ps (some ((codes "detail", e) ∷ []))

fill-last :
    (ps : List Param) (r : HttpResponse)
    → ((fill ps r).data_value ≡ last_data ps r.data_value)
      × ((fill ps r).errors ≡ last_errors ps r.errors)
      × ((fill ps r).success ≡ r.success)
unfolding fill
fill-last [] r = (refl, refl, refl)
fill-last (meta_of v ∷ ps) r = fill-last ps (record r { meta = some v })
fill-last (multi_error m ∷ ps) r = fill-last ps (record r { errors = some m })
fill-last (error e ∷ ps) r = fill-last ps (record r { errors = some ((codes "detail", e) ∷ []) })
fill-last (other v ∷ ps) r = fill-last ps (record r { data_value = some v })

-- A response is a success just where its code is below 400, whatever its parameters are; its data is
-- the last parameter that is neither an error nor a Meta, its errors the last that is an error.
pub new_http_response-last :
    (code : ℕ) (message : Bytes) (ps : List Param)
    → let r = new_http_response code message ps in
      (r.success ≡ ltb code 400)
      × (r.data_value ≡ last_data ps none)
      × (r.errors ≡ last_errors ps none)
unfolding new_http_response
new_http_response-last code message ps = ground (arith, fill-last ps unset)
