-- ===== src/Html/JsonViewer.antt =====
-- frontend/src/components/JsonViewer.tsx, given what `JSON.stringify` prints of its data.
use nats_demo.Common.{String, [], Option, none, some, is_set, or_default}
use nats_demo.Html.Guarded.{Guarded, Sound, Posted}
use nats_demo.Html.{is_disabled, Html, nothing, text, element, ◌<>◌, when, within}

unfoldable pub json_viewer : {E : Type 0} → (printed title : Option String) → Html E
json_viewer none title = nothing
json_viewer (some printed) title = element "div" [] (
    (when (is_set title) (element "div" [] (text (or_default title ""))))
    <> (within "div" "json-viewer-container" (within "pre" "json-code" (text printed))))

-- It offers nothing.
pub Guarded-json_viewer :
    {E : Type 0} (P : E → Type 0) (printed title : Option String)
    → Guarded P (json_viewer printed title)
unfolding json_viewer Guarded Sound Posted is_disabled
Guarded-json_viewer P none title = tt
Guarded-json_viewer P (some printed) title = search depth 20
