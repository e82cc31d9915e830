-- ===== src/Downloader/Tests.antt =====
-- The URL test of src/downloader/downloader.py on three URLs.
use extube.Prelude.{◌≡◌, refl, true, false}
use extube.Downloader.{validate_youtube_url}

short_url : validate_youtube_url "https://youtu.be/dQw4w9WgXcQ" ≡ true
unfolding validate_youtube_url
short_url = refl

watch_url : validate_youtube_url "www.youtube.com/watch?v=dQw4w9WgXcQ" ≡ true
unfolding validate_youtube_url
watch_url = refl

other_host : validate_youtube_url "https://example.com/dQw4w9WgXcQ" ≡ false
unfolding validate_youtube_url
other_host = refl
