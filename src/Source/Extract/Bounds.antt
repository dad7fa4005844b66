-- ===== src/Source/Extract/Bounds.antt =====
-- What an archive may put on the disk at most.
use deployer.Base.{
  Text, List, Bool, Option, some, none, true, false, [], ◌∷◌, ◌==◌, ltb, ◌+◌, ◌-◌, ◌≤◌, ◌≡◌, min, ℕ,
  arith, Bool-cases, inl, inr, Option-cases,
}
use deployer.Source.Extract.{
  Kind, dir, reg, other, Entry, Archive, Limits, made_parent_of, created, copied, Trace, Disk,
  Outcome, accepted, rejected, faulted, Fate, wrote, ended, close_file, copy_file, open_file,
  create_file, write_file, make_dir, place, place_at, onward, round, unpack, extract, opened,
  file_mode,
}
use deployer.Source.Paths.{safe_path}

-- The bytes written to files.
abbrev pub bytes_of : Trace → ℕ
bytes_of [] = 0
bytes_of (copied p n ∷ tr) = n + bytes_of tr
bytes_of (step ∷ tr) = bytes_of tr

-- After an entry, with `before` bytes on the disk and `remaining` left.
abbrev pub Spent : ℕ → ℕ → Fate × Trace → Type 0
Spent before remaining (wrote n, tr) = (n ≤ remaining) × (bytes_of tr ≡ before + n)
Spent before remaining (ended accepted, tr) = ⊥
Spent before remaining (ended rejected, tr) = bytes_of tr ≤ before + remaining + 1
Spent before remaining (ended faulted, tr) = bytes_of tr ≤ before + remaining + 1

close-Spent :
    (d : Disk) (target : Text) (remaining written : ℕ) (broke : Bool) (tr : Trace)
    → written ≤ remaining + 1
    → Spent
        (bytes_of tr)
        remaining
        (close_file d target remaining written broke (copied target written ∷ tr))
unfolding close_file
close-Spent d target remaining written broke tr h = ground arith

copy-Spent :
    (d : Disk) (target : Text) (remaining size : ℕ) (breaks : Option ℕ) (tr : Trace)
    → Spent (bytes_of tr) remaining (copy_file d target remaining size breaks tr)
unfolding copy_file
copy-Spent d target remaining size none tr =
    close-Spent d target remaining (min size (remaining + 1)) false tr (omega arith)
copy-Spent d target remaining size (some n) tr =
    close-Spent d target remaining (min n (min size (remaining + 1))) true tr (omega arith)

open-Spent :
    (d : Disk) (target : Text) (remaining size : ℕ) (ok : Bool) (tr : Trace)
    → Spent (bytes_of tr) remaining (open_file d target remaining size ok tr)
unfolding open_file
open-Spent d target remaining size false tr = omega arith
open-Spent d target remaining size true tr =
    copy-Spent d target remaining size (d.breaks_after tr target) tr

create-Spent :
    (d : Disk) (target : Text) (mode remaining size : ℕ) (ok : Bool) (tr : Trace)
    → Spent (bytes_of tr) remaining (create_file d target mode remaining size ok tr)
unfolding create_file
create-Spent d target mode remaining size false tr = omega arith
create-Spent d target mode remaining size true tr =
    open-Spent d target remaining size (opened d target tr)
      (created target mode (opened d target tr) ∷ tr)

place-Spent :
    (d : Disk) (kind : Kind) (target : Text) (mode size remaining : ℕ) (tr : Trace)
    → Spent (bytes_of tr) remaining (place d kind target mode size remaining tr)
unfolding place write_file make_dir
place-Spent d dir target mode size remaining tr = elim (Bool-cases (d.mkdir_all tr target)) [
  | inl made ↦ rw made (omega arith, omega arith)
  | inr failed ↦ rw failed (omega arith)
]
place-Spent d reg target mode size remaining tr = elim (Bool-cases (remaining == 0)) [
  | inl full ↦ rw full (omega arith)
  | inr room ↦ rw room (
      create-Spent d target (file_mode mode) remaining size (d.mkdir_all tr target)
        (made_parent_of target (d.mkdir_all tr target) ∷ tr))
]
place-Spent d (other flag) target mode size remaining tr = omega arith

pub round-Spent :
    (d : Disk) (root : Text) (lim : Limits) (files remaining : ℕ) (e : Entry) (tr : Trace)
    → Spent (bytes_of tr) remaining (round d root lim files remaining e tr)
unfolding round place_at
round-Spent d root lim files remaining e tr = elim (Bool-cases (ltb lim.max_files files)) [
  | inl many ↦ rw many (omega arith)
  | inr few ↦ elim (Option-cases (safe_path root e.name)) [
    | inl bad ↦ rw (few, bad, place_at) (omega arith)
    | inr (target, good) ↦
        rw (few, good, place_at) (place-Spent d e.kind target e.mode e.size remaining tr)
  ]
]

-- After the whole archive, of which `total` bytes are allowed.
abbrev pub Held : ℕ → Outcome × Trace → Type 0
Held total (accepted, tr) = bytes_of tr ≤ total
Held total (rejected, tr) = bytes_of tr ≤ total + 1
Held total (faulted, tr) = bytes_of tr ≤ total + 1

onward-Held :
    (d : Disk) (total before remaining : ℕ) (x : Fate × Trace) (f : ℕ → Trace → Outcome × Trace)
    → Spent before remaining x
    → before + remaining ≡ total
    → ((n : ℕ) (tr : Trace) → n ≤ remaining → bytes_of tr ≡ before + n → Held total (f n tr))
    → Held total (onward d x f)
onward-Held d total before remaining (wrote n, tr) f h q k = k n tr h.0 h.1
onward-Held d total before remaining (ended accepted, tr) f h q k = absurd h
onward-Held d total before remaining (ended rejected, tr) f h q k = omega arith
onward-Held d total before remaining (ended faulted, tr) f h q k = omega arith

unpack-Held :
    (d : Disk) (root : Text) (lim : Limits) (ends : Bool) (total files remaining : ℕ)
    (es : List Entry) (tr : Trace)
    → bytes_of tr + remaining ≡ total
    → Held total (unpack d root lim ends files remaining es tr)
unfolding unpack
unpack-Held d root lim true total files remaining [] tr q = omega arith
unpack-Held d root lim false total files remaining [] tr q = omega arith
unpack-Held d root lim ends total files remaining (e ∷ es) tr q =
    onward-Held d total (bytes_of tr) remaining (round d root lim (files + 1) remaining e tr) _
      (round-Spent d root lim (files + 1) remaining e tr) q
      (λ n tr' h p.
        unpack-Held d root lim ends total (files + 1) (remaining - n) es tr' (omega arith))

-- Whatever the archive and the disk do, the files hold one byte more than the limit at most, and an
-- archive that is accepted does not hold more than the limit.
pub extract-Held :
    (d : Disk) (root : Text) (lim : Limits) (a : Archive)
    → Held lim.max_bytes (extract d root lim a)
unfolding extract
extract-Held d root lim a = elim (Bool-cases a.is_gzip) [
  | inl plain ↦
      rw plain
        (unpack-Held d root lim a.ends lim.max_bytes 0 lim.max_bytes a.entries [] (omega arith))
  | inr bad ↦ rw bad (omega arith)
]
