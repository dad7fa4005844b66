-- ===== src/Source/Detect/Agrees.antt =====
-- What is detected is what is unpacked.
use deployer.Base.{
  Text, List, Bool, Option, some, none, true, false, [], ◌∷◌, ◌++◌, ◌&&◌, ◌||◌, ◌==◌, ltb, ◌+◌, ◌-◌,
  min, ◌≡◌, ℕ, arith, refl, sym, Bool-cases, Option-cases, inl, inr, text_eq,
}
use deployer.Source.Extract.{
  Kind, dir, reg, other, Entry, Archive, Limits, made_parent_of, created, copied, Trace, Disk,
  Outcome, accepted, rejected, faulted, Fate, wrote, ended, close_file, copy_file, open_file,
  create_file, write_file, make_dir, place, place_at, onward, round, unpack, extract, opened,
  file_mode,
}
use deployer.Source.Paths.{safe_path}
use deployer.Source.Paths.Elements.{Plain, path_of}
use deployer.Source.Detect.Root.{alone, lands-clean}
use deployer.Source.Extract.Bounds.{Spent, round-Spent, bytes_of}
use deployer.Source.Detect.{is_reg, is_root_dockerfile, detect, has_root_dockerfile}

-- A file was created at the path.
abbrev pub has_file : Text → Trace → Bool
has_file p [] = false
has_file p (created q mode true ∷ tr) = text_eq q p || has_file p tr
has_file p (step ∷ tr) = has_file p tr

-- After an entry that was written, the file is there if it was before or is the entry's own.
abbrev pub Adds : Text → Bool → Trace → Fate × Trace → Type 0
Adds p own tr (wrote n, tr') = has_file p tr' ≡ (own || has_file p tr)
Adds p own tr (ended x, tr') = Unit

close-Adds :
    (d : Disk) (p target : Text) (own : Bool) (remaining written : ℕ) (broke : Bool)
    (tr tr' : Trace)
    → has_file p tr' ≡ (own || has_file p tr)
    → Adds p own tr (close_file d target remaining written broke tr')
unfolding close_file
close-Adds d p target own remaining written broke tr tr' h = ground (arith, h)

copy-Adds :
    (d : Disk) (p target : Text) (own : Bool) (remaining size : ℕ) (breaks : Option ℕ)
    (tr tr' : Trace)
    → has_file p tr' ≡ (own || has_file p tr)
    → Adds p own tr (copy_file d target remaining size breaks tr')
unfolding copy_file
copy-Adds d p target own remaining size none tr tr' h =
    let n = min size (remaining + 1) in
    close-Adds d p target own remaining n false tr (copied target n ∷ tr') h
copy-Adds d p target own remaining size (some k) tr tr' h =
    let n = min k (min size (remaining + 1)) in
    close-Adds d p target own remaining n true tr (copied target n ∷ tr') h

open-Adds :
    (d : Disk) (p target : Text) (mode remaining size : ℕ) (ok : Bool) (tr : Trace)
    → Adds p
        (text_eq target p)
        tr
        (open_file d target remaining size ok (created target mode ok ∷ tr))
unfolding open_file
open-Adds d p target mode remaining size false tr = tt
open-Adds d p target mode remaining size true tr =
    copy-Adds d p target (text_eq target p) remaining size
      (d.breaks_after (created target mode true ∷ tr) target) tr (created target mode true ∷ tr)
      refl

create-Adds :
    (d : Disk) (p target : Text) (mode remaining size : ℕ) (ok : Bool) (tr : Trace)
    → Adds p
        (text_eq target p)
        tr
        (create_file d target mode remaining size ok (made_parent_of target ok ∷ tr))
unfolding create_file
create-Adds d p target mode remaining size false tr = tt
create-Adds d p target mode remaining size true tr =
    open-Adds d p target mode remaining size (opened d target (made_parent_of target true ∷ tr))
      (made_parent_of target true ∷ tr)

place-Adds :
    (d : Disk) (p : Text) (kind : Kind) (target : Text) (mode size remaining : ℕ) (tr : Trace)
    → Adds p (is_reg kind && text_eq target p) tr (place d kind target mode size remaining tr)
unfolding place write_file make_dir
place-Adds d p dir target mode size remaining tr = ground arith
place-Adds d p reg target mode size remaining tr = elim (Bool-cases (remaining == 0)) [
  | inl full ↦ rw full tt
  | inr room ↦
      rw room (create-Adds d p target (file_mode mode) remaining size (d.mkdir_all tr target) tr)
]
place-Adds d p (other flag) target mode size remaining tr = tt

abbrev pub dockerfile_at : Text → List Text → Text
dockerfile_at q qs = path_of ((q ∷ qs) ++ alone)

module _ (d : Disk) (q : Text) (qs : List Text) (plain_root : Plain (q ∷ qs)) (lim : Limits) where
  round-Adds :
      (files remaining : ℕ) (e : Entry) (tr : Trace)
      → Adds
          (dockerfile_at q qs)
          (is_root_dockerfile e)
          tr
          (round d (path_of (q ∷ qs)) lim files remaining e tr)
  unfolding round
  round-Adds files remaining e tr = elim (Bool-cases (ltb lim.max_files files)) [
    | inl many ↦ rw many tt
    | inr few ↦ elim (Option-cases (safe_path (path_of (q ∷ qs)) e.name)) [
      | inl bad ↦ rw (few, bad, place_at) tt
      | inr (target, good) ↦
          rw (few, good, place_at, sym (lands-clean q qs e.name target plain_root good))
            (place-Adds d (dockerfile_at q qs) e.kind target e.mode e.size remaining tr)
    ]
  ]

  detect_on :
      (over : ℕ → Bool) (ends : Bool) (files : ℕ) (found b : Bool) (e : Entry) (es : List Entry)
      → detect over lim ends files found (e ∷ es) ≡ some b
      → detect over lim ends (files + 1) (found || is_root_dockerfile e) es ≡ some b
  unfolding detect
  detect_on over ends files found b e es h = ground arith

  -- One entry, of which `found'` is what is found with it.
  step_agrees :
      (x : Fate × Trace) (f : ℕ → Trace → Outcome × Trace) (own found b : Bool)
      (before remaining : ℕ) (tr : Trace)
      → Adds (dockerfile_at q qs) own tr x
      → Spent before remaining x
      → found ≡ has_file (dockerfile_at q qs) tr
      → (onward d x f).0 ≡ accepted
      → ((n : ℕ) (tr' : Trace)
          → (found || own) ≡ has_file (dockerfile_at q qs) tr'
          → (f n tr').0 ≡ accepted
          → b ≡ has_file (dockerfile_at q qs) (f n tr').1)
      → b ≡ has_file (dockerfile_at q qs) (onward d x f).1
  step_agrees (wrote n, tr') f own found b before remaining tr adds spent same good k =
      k n tr' (ground (arith, adds, same)) good
  step_agrees (ended accepted, tr') f own found b before remaining tr adds spent same good k =
      absurd spent
  step_agrees (ended rejected, tr') f own found b before remaining tr adds spent same good k = cc
  step_agrees (ended faulted, tr') f own found b before remaining tr adds spent same good k = cc

  unpack_agrees :
      (over : ℕ → Bool) (ends : Bool) (files remaining : ℕ) (found b : Bool) (es : List Entry)
      (tr : Trace)
      → found ≡ has_file (dockerfile_at q qs) tr
      → (unpack d (path_of (q ∷ qs)) lim ends files remaining es tr).0 ≡ accepted
      → detect over lim ends files found es ≡ some b
      → b
        ≡ has_file
            (dockerfile_at q qs)
            (unpack d (path_of (q ∷ qs)) lim ends files remaining es tr).1
  unfolding unpack detect
  unpack_agrees over ends files remaining found b [] tr same good h = ground (arith, same, h)
  unpack_agrees over ends files remaining found b (e ∷ es) tr same good h =
      step_agrees (round d (path_of (q ∷ qs)) lim (files + 1) remaining e tr)
        (λ n tr'. unpack d (path_of (q ∷ qs)) lim ends (files + 1) (remaining - n) es tr')
        (is_root_dockerfile e) found b (bytes_of tr) remaining tr
        (round-Adds (files + 1) remaining e tr)
        (round-Spent d (path_of (q ∷ qs)) lim (files + 1) remaining e tr) same good
        (λ n tr' s g.
          unpack_agrees over ends (files + 1) (remaining - n) (found || is_root_dockerfile e) b es
            tr' s g (detect_on over ends files found b e es h))

  -- Where HasRootDockerfile answers and Extract accepts the archive, the answer is whether Extract has
  -- created a file named Dockerfile directly under the root, however the archive spells that name.
  pub has_root_dockerfile-extract :
      (over : ℕ → Bool) (a : Archive) (b : Bool)
      → (extract d (path_of (q ∷ qs)) lim a).0 ≡ accepted
      → has_root_dockerfile over lim a ≡ some b
      → b ≡ has_file (dockerfile_at q qs) (extract d (path_of (q ∷ qs)) lim a).1
  unfolding extract has_root_dockerfile
  has_root_dockerfile-extract over a b good h =
      ground (arith, good, h, unpack_agrees over a.ends 0 lim.max_bytes false b a.entries [] refl)
