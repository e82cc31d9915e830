-- ===== src/Pipeline/Tests.antt =====
-- A video of three frames, the second of which is blurry, from the command line to the scene.
use extube.Prelude.{true, false, ◌≡◌, Option, none, some, [], ◌∷◌, str_eq, any, refl, if◌then◌else◌}
use extube.Prelude.Split.{split_on}
use extube.Colmap.{exited, run_colmap, after_attempt, failure_at, failure}
use extube.Downloader.{validate_youtube_url}
use extube.Downloader.Download.{Answer, info, download_error, missing, value}
use extube.Extractor.{Video}
use extube.Reconstruct.{State, absent}
use extube.Pipeline.{Tools}
use extube.Pipeline.Cli.{Namespace, defaults, parse_args, url, output_dir, Outcome, exit_code, main}

abbrev video : Video
video = record {
  exists = true;
  ffmpeg = exited 0 "";
  frame_files =
      "frame_000003.jpg" ∷ "frame_000001.jpg" ∷ "frame_000002.jpg" ∷ "cover.png" ∷ "notes.txt" ∷ [];
  laplacian = λ name. exited 0 (
      if str_eq name "frame_000002.jpg"
      then "lavfi.laplacian.variance=low"
      else "lavfi.laplacian.variance=high");
  float = λ text.
      if str_eq text "low" then some 40 else if str_eq text "high" then some 180000 else none;
  as_completed = λ names. names;
}

abbrev answer : Answer
answer = info (record {
  id = "dQw4w9WgXcQ";
  title = value "Tour";
  ext = missing;
  height = value 720;
  duration = value 60000;
  filesize_approx = missing;
  filesize = value 4096;
})

-- The downloaded file, and the model and the points that COLMAP leaves.
abbrev tools : Tools
tools = record {
  yt_dlp = record {
    lookup = λ text. answer;
    download = λ o text. answer;
    download_effect = λ o text files. record files {
      is_file = λ path. str_eq path "out/download/dQw4w9WgXcQ.mp4";
    };
  };
  video = λ files path. video;
  machine = record {
    process = λ command attempt. exited 0 "";
    effect = λ command files. record files {
      is_dir = λ path. any (str_eq path) (
          "out/extraction/frames" ∷ "out/reconstruction/sparse" ∷ "out/reconstruction/sparse/0"
          ∷ []);
      is_file = λ path.
          any (str_eq path)
            ("out/reconstruction/database.db" ∷ "out/reconstruction/points.ply" ∷ []);
      names = λ dir. if str_eq dir "out/reconstruction/sparse" then "0" ∷ [] else files.names dir;
    };
    model_analyzer = λ path. some "Registered images = 3\nPoints (3D) = 128";
    potree_installed = false;
    potree_process = exited 0 "";
    potree_effect = λ files. files;
    gaussian = record {
      probe = none;
      conversion = exited 0 "";
      first_run = exited 0 "";
      second_run = exited 0 "";
      ply_files = [];
      splat_files = [];
    };
    gaussian_effect = λ files. files;
    locked = λ path. false;
  };
}

abbrev start : State
start = record {
  files = record {
    is_dir = λ path. false;
    is_file = λ path. false;
    names = λ dir. [];
    lines = λ path. none;
    refuses = λ dir. none;
  };
  checkpoint = absent;
  steps_completed = [];
  commands = [];
  retries = [];
  notices = [];
  metadata = none;
}

args : Namespace
unfolding parse_args
args =
    parse_args (output_dir "elsewhere" ∷ url "https://youtu.be/dQw4w9WgXcQ" ∷ output_dir "out" ∷ [])
      defaults

abbrev end_of : Option (Outcome × State) → Option Outcome
end_of none = none
end_of (some (outcome, s)) = some outcome

prints_the_scene :
    end_of (main tools args start)
    ≡ some (
        exit_code 0 (
          "\n완료! 결과: out" ∷ "  영상: Tour" ∷ "  프레임: 3장 추출" ∷ "  3D 포인트: 128개"
          ∷ "  PLY 파일: out/reconstruction/points.ply" ∷ []))
unfolding args main validate_youtube_url split_on run_colmap after_attempt failure_at failure
prints_the_scene = refl

fails_without_the_video :
    end_of (
      main
        (record tools {
          yt_dlp = record tools.yt_dlp { download = λ o text. download_error "private" };
        })
        args
        start)
    ≡ some (exit_code 1 [])
unfolding args main validate_youtube_url
fails_without_the_video = refl
