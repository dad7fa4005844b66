-- ===== src/Source/Extract/Inside.antt =====
-- Where an archive can write.
use deployer.Base.{
  Text, List, Bool, Option, some, none, true, false, [], ◌∷◌, ◌++◌, All, ◌==◌, ltb, ◌+◌, ◌-◌, ◌≡◌,
  ℕ, arith, refl, Bool-cases, Option-cases, inl, inr, min, sym, ◌∙◌,
}
use deployer.Source.Extract.{
  Kind, dir, reg, other, Entry, Archive, Limits, Step, made_dir, made_parent_of, created, copied,
  Trace, Disk, Outcome, Fate, wrote, ended, close_file, copy_file, open_file, create_file,
  write_file, make_dir, place, place_at, onward, round, unpack, extract, opened, file_mode,
}
use deployer.Source.Paths.{safe_path, split_slash, climbs}
use deployer.Source.Paths.Elements.{Plain, path_of, has_dotdot}
use deployer.Source.Paths.Lands.{safe_path-lands, refused, inside, kept-climbless}

abbrev pub path_in : Step → Text
path_in (made_dir p mode ok) = p
path_in (made_parent_of p ok) = p
path_in (created p mode ok) = p
path_in (copied p n) = p

-- The path is the root's elements and then some, none of which climbs.
abbrev pub Lands : List Text → Text → Type 0
Lands ps p = (ks : List Text) × (p ≡ path_of (ps ++ ks)) × (has_dotdot ks ≡ false)

abbrev pub AllInside : List Text → Trace → Type 0
AllInside ps tr = All (λ step. Lands ps (path_in step)) tr

module _ (d : Disk) (ps : List Text) (target : Text) (good : Lands ps target) where
  close-same :
      (remaining written : ℕ) (broke : Bool) (tr : Trace)
      → (close_file d target remaining written broke tr).1 ≡ tr
  unfolding close_file
  close-same remaining written broke tr = ground arith

  close-inside :
      (remaining written : ℕ) (broke : Bool) (tr : Trace)
      → AllInside ps tr
      → AllInside ps (close_file d target remaining written broke tr).1
  close-inside remaining written broke tr h = rw (close-same remaining written broke tr) h

  copy-inside :
      (remaining size : ℕ) (breaks : Option ℕ) (tr : Trace)
      → AllInside ps tr
      → AllInside ps (copy_file d target remaining size breaks tr).1
  unfolding copy_file
  copy-inside remaining size none tr h =
      let n = min size (remaining + 1) in
      close-inside remaining n false (copied target n ∷ tr) (good, h)
  copy-inside remaining size (some n) tr h =
      let m = min n (min size (remaining + 1)) in
      close-inside remaining m true (copied target m ∷ tr) (good, h)

  open-inside :
      (remaining size : ℕ) (ok : Bool) (tr : Trace)
      → AllInside ps tr
      → AllInside ps (open_file d target remaining size ok tr).1
  unfolding open_file
  open-inside remaining size false tr h = h
  open-inside remaining size true tr h = copy-inside remaining size (d.breaks_after tr target) tr h

  create-inside :
      (mode remaining size : ℕ) (ok : Bool) (tr : Trace)
      → AllInside ps tr
      → AllInside ps (create_file d target mode remaining size ok tr).1
  unfolding create_file
  create-inside mode remaining size false tr h = h
  create-inside mode remaining size true tr h =
      open-inside remaining size (opened d target tr)
        (created target mode (opened d target tr) ∷ tr) (good, h)

  place-inside :
      (kind : Kind) (mode size remaining : ℕ) (tr : Trace)
      → AllInside ps tr
      → AllInside ps (place d kind target mode size remaining tr).1
  unfolding place write_file make_dir
  place-inside dir mode size remaining tr h = (good, h)
  place-inside reg mode size remaining tr h = elim (Bool-cases (remaining == 0)) [
    | inl full ↦ rw full h
    | inr room ↦ rw room (
        create-inside (file_mode mode) remaining size (d.mkdir_all tr target)
          (made_parent_of target (d.mkdir_all tr target) ∷ tr) (good, h))
  ]
  place-inside (other flag) mode size remaining tr h = h

module _ (d : Disk) (q : Text) (qs : List Text) (plain_root : Plain (q ∷ qs)) where
  still : (name : Text) → refused name ≡ false → has_dotdot (split_slash name) ≡ false
  unfolding climbs
  still name h = ground arith

  safe-Lands :
      (name target : Text) → safe_path (path_of (q ∷ qs)) name ≡ some target → Lands (q ∷ qs) target
  safe-Lands name target h = elim (Bool-cases (refused name)) [
    | inl bad ↦
        let clash : none ≡ some target =
          sym (safe_path-lands q qs name plain_root ∙ rw bad refl) ∙ h in
        absurd (cc)
    | inr fine ↦
        let landed : safe_path (path_of (q ∷ qs)) name ≡ some (path_of ((q ∷ qs) ++ inside name)) =
          safe_path-lands q qs name plain_root ∙ rw fine refl in
        (
          inside name,
          ground (arith, landed, h),
          kept-climbless (split_slash name) (still name fine),
        )
  ]

  onward-inside :
      (x : Fate × Trace) (f : ℕ → Trace → Outcome × Trace)
      → AllInside (q ∷ qs) x.1
      → ((n : ℕ) (tr : Trace) → AllInside (q ∷ qs) tr → AllInside (q ∷ qs) (f n tr).1)
      → AllInside (q ∷ qs) (onward d x f).1
  onward-inside (wrote n, tr) f h k = k n tr h
  onward-inside (ended x, tr) f h k = h

  round-inside :
      (lim : Limits) (files remaining : ℕ) (e : Entry) (tr : Trace)
      → AllInside (q ∷ qs) tr
      → AllInside (q ∷ qs) (round d (path_of (q ∷ qs)) lim files remaining e tr).1
  unfolding round
  round-inside lim files remaining e tr h = elim (Bool-cases (ltb lim.max_files files)) [
    | inl many ↦ rw many h
    | inr few ↦ elim (Option-cases (safe_path (path_of (q ∷ qs)) e.name)) [
      | inl bad ↦ rw (few, bad, place_at) h
      | inr (target, good) ↦
          rw (few, good, place_at)
            (place-inside d (q ∷ qs) target (safe-Lands e.name target good) e.kind e.mode e.size
              remaining tr h)
    ]
  ]

  unpack-inside :
      (lim : Limits) (ends : Bool) (files remaining : ℕ) (es : List Entry) (tr : Trace)
      → AllInside (q ∷ qs) tr
      → AllInside (q ∷ qs) (unpack d (path_of (q ∷ qs)) lim ends files remaining es tr).1
  unfolding unpack
  unpack-inside lim ends files remaining [] tr h = h
  unpack-inside lim ends files remaining (e ∷ es) tr h =
      onward-inside (round d (path_of (q ∷ qs)) lim (files + 1) remaining e tr) _
        (round-inside lim (files + 1) remaining e tr h)
        (λ n tr' k. unpack-inside lim ends (files + 1) (remaining - n) es tr' k)

  -- Whatever an archive claims and whatever the disk answers, every path that Extract makes a directory
  -- or a file at, or whose parent it makes, is the root or lies under it, with no element `..` after
  -- the root; the root is any but `/`, as filepath.Abs leaves it.
  pub extract-inside :
      (lim : Limits) (a : Archive) → AllInside (q ∷ qs) (extract d (path_of (q ∷ qs)) lim a).1
  unfolding extract
  extract-inside lim a = elim (Bool-cases a.is_gzip) [
    | inl packed ↦ rw packed (unpack-inside lim a.ends 0 lim.max_bytes a.entries [] tt)
    | inr bad ↦ rw bad tt
  ]
