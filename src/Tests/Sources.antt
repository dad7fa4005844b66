-- ===== src/Tests/Sources.antt =====
-- Archives at concrete values, on a disk that never fails.
use deployer.Base.{Text, codes, some, none, true, false, [], ◌∷◌, refl, ◌≡◌, ℕ}
use deployer.Source.Paths.{safe_path, clean, join_slash}
use deployer.Source.Paths.Elements.{Plain, path_of}
use deployer.Source.Extract.{dir, reg, Entry, Archive, Limits, Disk, accepted, rejected, extract}
use deployer.Source.Extract.Bounds.{Held, extract-Held}
use deployer.Source.Extract.Inside.{AllInside, extract-inside}
use deployer.Source.Detect.{has_root_dockerfile, bounded_read}
use deployer.Source.Detect.Agrees.{has_file, dockerfile_at, has_root_dockerfile-extract}

abbrev disk : Disk
disk = record {
  mkdir_all = λ tr p. true;
  opens = λ tr p. true;
  breaks_after = λ tr p. none;
  closes = λ tr p. true;
}

abbrev limits : Limits
limits = record { max_files = 4; max_bytes = 100 }

abbrev file : Text → ℕ → Entry
file name size = record { kind = reg; name = name; mode = 0o4755; size = size }

abbrev app : Archive
app = record {
  is_gzip = true;
  entries =
      record { kind = dir; name = codes "src/"; mode = 0o700; size = 0 }
      ∷ file (codes "./src//main.go") 60
      ∷ file (codes "./Dockerfile") 40
      ∷ [];
  ends = true;
}

abbrev work : Text
work = codes "work"

work-Plain : Plain (work ∷ [])
work-Plain = (refl, tt)

cleans : clean (codes "../a/./b//../c/") ≡ codes "../a/c"
unfolding clean
cleans = refl

climbing : safe_path (codes "/work") (codes "a/../../etc") ≡ none
unfolding safe_path
climbing = refl

-- Under the root directory itself nothing but the root is accepted.
at_top : safe_path (codes "/") (codes "a") ≡ none
unfolding safe_path
at_top = refl

extract-app : (extract disk (path_of (work ∷ [])) limits app).0 ≡ accepted
unfolding extract join_slash
extract-app = refl

-- An empty file is refused once the limit is reached.
empty_refused :
    (extract disk
      (path_of (work ∷ []))
      limits
      (record app { entries = file (codes "a") 100 ∷ file (codes "b") 0 ∷ [] })).0
    ≡ rejected
unfolding extract join_slash
empty_refused = refl

extract-Held_example : Held 100 (extract disk (path_of (work ∷ [])) limits app)
extract-Held_example = extract-Held disk (path_of (work ∷ [])) limits app

extract-inside_example : AllInside (work ∷ []) (extract disk (path_of (work ∷ [])) limits app).1
extract-inside_example = extract-inside disk work [] work-Plain limits app

detected : has_root_dockerfile (λ files. false) limits app ≡ some true
unfolding has_root_dockerfile
detected = refl

has_root_dockerfile-extract_example :
    true ≡ has_file (dockerfile_at work []) (extract disk (path_of (work ∷ [])) limits app).1
has_root_dockerfile-extract_example =
    has_root_dockerfile-extract disk work [] work-Plain limits (λ files. false) app true extract-app
      detected

-- The bounded reader reads no more than it has left.
bounded : bounded_read 10 512 512 ≡ some (10, 0)
unfolding bounded_read
bounded = refl
