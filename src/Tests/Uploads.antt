-- ===== src/Tests/Uploads.antt =====
-- media-service on a file name that tries to leave its folder.
use ceylon_events.Common.{ℕ, ◌≡◌, refl, List, codes}
use ceylon_events.Media.{
  event_banner, build_object_key, category_text, safe_name, sanitized, replace_dots, trim_start,
  trim_end,
}

abbrev uuid : List ℕ
uuid = codes "0f-1a"

climbing-safe :
    build_object_key event_banner uuid (codes " ../..//x.png")
    ≡ codes "event-banner/0f-1a-_____x.png"
unfolding build_object_key category_text safe_name sanitized replace_dots trim_start trim_end
climbing-safe = refl
