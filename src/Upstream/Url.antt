-- ===== src/Upstream/Url.antt =====
-- upstream/url.go: joining an ingress path to a provider's base URL.
pub mod Layouts
use daigate.Prelude.{
  Text, ◌++◌, codes, text_eq, has_prefix, has_suffix, trim_prefix, trim_right, is_empty,
  if◌then◌else◌, ◌&&◌, ◌||◌, not,
}

-- A path that starts with a slash, joined to a trimmed base.
unfoldable pub join_rooted : Text → Text → Text
join_rooted base path =
    base
    ++ (if has_suffix base (codes "/v1") && has_prefix path (codes "/v1/")
        then trim_prefix path (codes "/v1")
        else path)

unfoldable pub join_url : Text → Text → Text
join_url base_url path =
    let base = trim_right base_url b'/' in
    if is_empty path || text_eq path (codes "/")
    then base
    else join_rooted base (if not (has_prefix path (codes "/")) then codes "/" ++ path else path)

-- `base + tail` where the base ends with the layout's own segment, and the joined URL elsewhere.
abbrev pub under_segment : Text → Text → Text → Text → Text
under_segment base_url ingress_path segment tail =
    let base = trim_right base_url b'/' in
    if has_suffix base segment then base ++ tail else join_url base_url ingress_path

unfoldable pub image_upstream_path : Text → Text → Text
image_upstream_path base_url path =
    if text_eq path (codes "/v1/images/generations")
    then under_segment base_url path (codes "/images") (codes "/generations")
    else if text_eq path (codes "/v1/images/edits")
    then under_segment base_url path (codes "/images") (codes "/edits")
    else join_url base_url path

unfoldable pub video_upstream_path : Text → Text → Text
video_upstream_path base_url path =
    if text_eq path (codes "/v1/videos/generations")
    then under_segment base_url path (codes "/videos") (codes "/generations")
    else if text_eq path (codes "/v1/videos/edits")
    then under_segment base_url path (codes "/videos") (codes "/edits")
    else if text_eq path (codes "/v1/videos/extensions")
    then under_segment base_url path (codes "/videos") (codes "/extensions")
    else if has_prefix path (codes "/v1/videos/")
    then under_segment base_url path (codes "/videos")
        (codes "/" ++ trim_prefix path (codes "/v1/videos/"))
    else join_url base_url path
