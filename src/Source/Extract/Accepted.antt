-- ===== src/Source/Extract/Accepted.antt =====
-- What an accepted archive holds.
use deployer.Base.{
  Text, List, Bool, Option, some, none, true, false, [], ◌∷◌, All, if◌then◌else◌, not, ltb, ◌+◌,
  ◌-◌, ◌≤◌, ◌≡◌, ℕ, arith, refl, inl, inr, length, is_some, ◌⊎◌,
}
use deployer.Source.Extract.{
  Kind, dir, reg, other, Entry, Archive, Limits, Trace, Disk, Outcome, accepted, rejected, faulted,
  Fate, wrote, ended, place, place_at, onward, round, unpack, extract,
}
use deployer.Source.Extract.Bounds.{Spent, round-Spent, bytes_of}
use deployer.Source.Paths.{safe_path}

abbrev pub is_plain_kind : Kind → Bool
is_plain_kind dir = true
is_plain_kind reg = true
is_plain_kind (other flag) = false

-- A directory or a plain file, with a name that lands somewhere.
abbrev pub Fine : Text → Entry → Type 0
Fine root e = (is_some (safe_path root e.name) ≡ true) × (is_plain_kind e.kind ≡ true)

abbrev pub is_wrote : Fate → Bool
is_wrote (wrote n) = true
is_wrote (ended x) = false

guarded :
    (b : Bool) (x y : Fate × Trace)
    → is_wrote (if b then x else y).0 ≡ true
    → is_wrote x.0 ≡ false
    → (b ≡ false) × (is_wrote y.0 ≡ true)
guarded true x y h k = absurd (cc)
guarded false x y h k = (refl, h)

opened_gzip :
    (b : Bool) (tr : Trace) (y : Outcome × Trace)
    → (if not b then (rejected, tr) else y).0 ≡ accepted
    → (b ≡ true) × (y.0 ≡ accepted)
opened_gzip true tr y h = (refl, h)
opened_gzip false tr y h = absurd (cc)

module _ (d : Disk) (root : Text) (lim : Limits) where
  place_fine :
      (kind : Kind) (target : Text) (mode size remaining : ℕ) (tr : Trace)
      → is_wrote (place d kind target mode size remaining tr).0 ≡ true
      → is_plain_kind kind ≡ true
  unfolding place
  place_fine dir target mode size remaining tr h = refl
  place_fine reg target mode size remaining tr h = refl
  place_fine (other flag) target mode size remaining tr h = cc

  place_at_fine :
      (o : Option Text) (e : Entry) (remaining : ℕ) (tr : Trace)
      → is_wrote (place_at d o e remaining tr).0 ≡ true
      → (is_some o ≡ true) × (is_plain_kind e.kind ≡ true)
  unfolding place_at
  place_at_fine none e remaining tr h = absurd (cc)
  place_at_fine (some target) e remaining tr h =
      (refl, place_fine e.kind target e.mode e.size remaining tr h)

  round-Fine :
      (files remaining : ℕ) (e : Entry) (tr : Trace)
      → is_wrote (round d root lim files remaining e tr).0 ≡ true
      → (files ≤ lim.max_files) × Fine root e
  unfolding round
  round-Fine files remaining e tr h =
      let passed = guarded (ltb lim.max_files files) _ _ h refl in
      (ground arith, place_at_fine (safe_path root e.name) e remaining tr passed.1)

  onward_fine :
      (before remaining : ℕ) (x : Fate × Trace) (f : ℕ → Trace → Outcome × Trace)
      → Spent before remaining x
      → (onward d x f).0 ≡ accepted
      → (n : ℕ) × (tr : Trace) × (is_wrote x.0 ≡ true) × ((f n tr).0 ≡ accepted)
  onward_fine before remaining (wrote n, tr) f h good = (n, tr, refl, good)
  onward_fine before remaining (ended accepted, tr) f h good = absurd h
  onward_fine before remaining (ended rejected, tr) f h good = absurd (cc)
  onward_fine before remaining (ended faulted, tr) f h good = absurd (cc)

  unpack-Fine :
      (ends : Bool) (files remaining : ℕ) (es : List Entry) (tr : Trace)
      → (unpack d root lim ends files remaining es tr).0 ≡ accepted
      → (All (Fine root) es × ((length es ≡ 0) ⊎ (files + length es ≤ lim.max_files)))
        × (ends ≡ true)
  unfolding unpack
  unpack-Fine true files remaining [] tr h = ((tt, inl refl), refl)
  unpack-Fine false files remaining [] tr h = absurd (cc)
  unpack-Fine ends files remaining (e ∷ es) tr h =
      let x = round d root lim (files + 1) remaining e tr in
      let (n, tr', wrote_it, good) =
        onward_fine (bytes_of tr) remaining x
          (λ n tr'. unpack d root lim ends (files + 1) (remaining - n) es tr')
          (round-Spent d root lim (files + 1) remaining e tr) h in
      let fine = round-Fine (files + 1) remaining e tr wrote_it in
      let rest = unpack-Fine ends (files + 1) (remaining - n) es tr' good in
      (((fine.1, rest.0.0), inr (ground (arith, fine.0, rest.0.1))), rest.1)

-- An archive is accepted only if it is gzip, ends without an error, has no more entries than the limit,
-- and each of them is a directory or a plain file whose name safePath accepts.
pub extract-Fine :
    (d : Disk) (root : Text) (lim : Limits) (a : Archive)
    → (extract d root lim a).0 ≡ accepted
    → (a.is_gzip ≡ true)
      × (a.ends ≡ true)
      × (length a.entries ≤ lim.max_files)
      × All (Fine root) a.entries
unfolding extract
extract-Fine d root lim a h =
    let begun =
      opened_gzip a.is_gzip [] (unpack d root lim a.ends 0 lim.max_bytes a.entries []) h in
    let fine = unpack-Fine d root lim a.ends 0 lim.max_bytes a.entries [] begun.1 in
    (begun.0, fine.1, ground (arith, fine.0.1), fine.0.0)
