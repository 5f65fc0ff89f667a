-- ===== src/Http/Assets.antt =====
-- src/web/assets.rs: the browser's files, which the build embeds. `include` gives the content of a
-- file of web/; a text or binary body stands as a string.
use netix_republisher.Prelude.{String, [], ◌∷◌}
use netix_republisher.Http.{Response}
use netix_republisher.Json.{str}

asset : (content_type body : String) → Response
asset content_type body = record {
  status = 200;
  headers = ("content-type", content_type) ∷ ("cache-control", "no-cache") ∷ [];
  body = str body;
}

binary_asset : (content_type body : String) → Response
binary_asset content_type body = record {
  status = 200;
  headers = ("content-type", content_type) ∷ ("cache-control", "no-cache") ∷ [];
  body = str body;
}

module _ (include : String → String) where
  unfoldable pub index : Response
  unfolding asset
  index = asset "text/html; charset=utf-8" (include "index.html")

  unfoldable pub app_js : Response
  unfolding asset
  app_js = asset "application/javascript; charset=utf-8" (include "app.js")

  unfoldable pub style_css : Response
  unfolding asset
  style_css = asset "text/css; charset=utf-8" (include "style.css")

  unfoldable pub favicon : Response
  unfolding asset
  favicon = asset "image/svg+xml" (include "favicon.svg")

  unfoldable pub logo_png : Response
  unfolding binary_asset
  logo_png = binary_asset "image/png" (include "logo.png")

  unfoldable pub logo_dark_png : Response
  unfolding binary_asset
  logo_dark_png = binary_asset "image/png" (include "logo-dark.png")

  unfoldable pub glyph_png : Response
  unfolding binary_asset
  glyph_png = binary_asset "image/png" (include "glyph.png")

  unfoldable pub favicon_png : Response
  unfolding binary_asset
  favicon_png = binary_asset "image/png" (include "favicon.png")
