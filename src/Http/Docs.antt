-- ===== src/Http/Docs.antt =====
-- internal/adapters/httpapi/handlers_docs.go: the pages of the API's documentation, and the
-- patterns of router.go. The file system is an argument.
use wb_trial_task.Common.{
  ℕ, List, [], ◌∷◌, ◌++◌, Str, runes, is_empty, if◌then◌else◌, ◌⊎◌, inl, inr,
}
use wb_trial_task.Normalizer.{trim_space}
use wb_trial_task.Http.Response.{Response, write_error, text_body, code_unavailable}
use wb_trial_task.Http.Ports.{Api}

abbrev pub msg_open_api_unavailable : Str
msg_open_api_unavailable = runes "openapi spec is unavailable"

-- The lines of a text, with a line feed between them
abbrev pub join_lines : List Str → Str
join_lines [] = []
join_lines (line ∷ []) = line
join_lines (line ∷ next ∷ lines) = line ++ (10 ∷ join_lines (next ∷ lines))

abbrev pub swagger_ui_html : Str
swagger_ui_html = join_lines (
    runes "<!DOCTYPE html>"
    ∷ runes "<html lang=\"ru\">"
    ∷ runes "  <head>"
    ∷ runes "    <meta charset=\"UTF-8\">"
    ∷ runes "    <meta name=\"viewport\" content=\"width=device-width, initial-scale=1.0\">"
    ∷ runes "    <title>Trends Service API Docs</title>"
    ∷ runes
        "    <link rel=\"stylesheet\" href=\"https://unpkg.com/swagger-ui-dist@5/swagger-ui.css\">"
    ∷ runes "    <style>"
    ∷ runes "      body { margin: 0; background: #f3f5f7; }"
    ∷ runes "      #swagger-ui { max-width: 1200px; margin: 0 auto; }"
    ∷ runes "    </style>"
    ∷ runes "  </head>"
    ∷ runes "  <body>"
    ∷ runes "    <div id=\"swagger-ui\"></div>"
    ∷ runes
        "    <script src=\"https://unpkg.com/swagger-ui-dist@5/swagger-ui-bundle.js\" crossorigin></script>"
    ∷ runes "    <script>"
    ∷ runes "      window.ui = SwaggerUIBundle({"
    ∷ runes "        url: \"/openapi.yaml\","
    ∷ runes "        dom_id: \"#swagger-ui\","
    ∷ runes "        deepLinking: true,"
    ∷ runes "        presets: [SwaggerUIBundle.presets.apis],"
    ∷ runes "        layout: \"BaseLayout\""
    ∷ runes "      });"
    ∷ runes "    </script>"
    ∷ runes "  </body>"
    ∷ runes "</html>"
    ∷ [])

-- What a handler does with the response: it writes one, or calls `http.Redirect`.
pub data Answer : Type 0 where
  written : Response → Answer
  redirected : (url : Str) (code : ℕ) → Answer

-- `SwaggerRedirect`
unfoldable pub swagger_redirect : Answer
swagger_redirect = redirected (runes "/swagger/") 307

-- `SwaggerUI`
unfoldable pub swagger_ui : Answer
swagger_ui = written (record {
  status = 200;
  content_type = runes "text/html; charset=utf-8";
  body = text_body swagger_ui_html;
})

-- `OpenAPISpec`, over `os.ReadFile`
unfoldable pub open_api_spec : {S E F : Type 0} → Api S E → (Str → F ⊎ Str) → Answer
open_api_spec api read_file =
    let given = trim_space api.open_api_spec_path in
    let path = if is_empty given then runes "docs/contracts/api.v1.openapi.yaml" else given in
    elim (read_file path) [
      | inl err ↦ written (write_error 503 code_unavailable msg_open_api_unavailable)
      | inr raw ↦ written (record {
        status = 200;
        content_type = runes "application/yaml; charset=utf-8";
        body = text_body raw;
      })
    ]

-- The handlers of the API, and the table by which `NewRouter` gives them their patterns.
pub data Endpoint : Type 0 where
  get_top list_stop_words add_stop_word delete_stop_word : Endpoint
  health metrics open_api swagger_index swagger_page : Endpoint

abbrev pub routes : List (Str × Endpoint)
routes =
    (runes "GET /api/v1/top", get_top)
    ∷ (runes "GET /api/v1/stop-words", list_stop_words)
    ∷ (runes "POST /api/v1/stop-words", add_stop_word)
    ∷ (runes "DELETE /api/v1/stop-words/{word}", delete_stop_word)
    ∷ (runes "GET /api/v1/health", health)
    ∷ (runes "GET /metrics", metrics)
    ∷ (runes "GET /openapi.yaml", open_api)
    ∷ (runes "GET /swagger", swagger_index)
    ∷ (runes "GET /swagger/", swagger_page)
    ∷ []
