-- ===== src/Rest/Fiber/Writer.antt =====
-- The methods JSON and XML of fiber-rest/http_response_writer.go, and Shutdown and Name of
-- fiber-rest/fiber_rest_server.go.
use candi_plugin.Base.{ℕ, List, Option}
use candi_plugin.Go.Text.{Bytes, codes}
use candi_plugin.Go.Act.{Act, ◌>>◌, emit, ask}
use candi_plugin.Candi.{Error}
use candi_plugin.Rest.Fiber.{HttpResponse}

pub data Format : Type 0 where
  json_format : Format
  xml_format : Format

-- What is done to a fasthttp.Response, and to the engine.
pub data Event : Type 0 where
  set_content_type : Format → Event
  set_status_code : ℕ → Event
  encode : Format → HttpResponse → Event
  shutdown_with_context : Event

-- JSON and XML; the world answers the error of Encode. The status is set before.
unfoldable pub json : (List Event → Option Error) → HttpResponse → Act Event (Option Error)
json encode_error resp = do
  emit (set_content_type json_format)
  emit (set_status_code resp.code)
  emit (encode json_format resp)
  ask encode_error

unfoldable pub xml : (List Event → Option Error) → HttpResponse → Act Event (Option Error)
xml encode_error resp = do
  emit (set_content_type xml_format)
  emit (set_status_code resp.code)
  emit (encode xml_format resp)
  ask encode_error

-- Shutdown, which drops the error of ShutdownWithContext.
unfoldable pub shutdown : Act Event (Unit {0})
shutdown = emit shutdown_with_context

unfoldable pub name : Bytes
name = codes "fiber-rest"
