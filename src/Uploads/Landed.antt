-- ===== src/Uploads/Landed.antt =====
-- An upload lands whole with its row, or leaves nothing.
use mathlib.Core.Path.{subst}
use deployer.Base.{
  Text, List, Bool, Option, some, none, true, false, [], ◌∷◌, is_some, if◌then◌else◌, not, ◌&&◌,
  ◌||◌, ltb, leb, ◌+◌, ◌≤◌, ◌<◌, ◌≡◌, text_eq, text_eq_refl, ℕ, length, take, refl, arith,
  Bool-cases, inl, inr, sym, ap, ◌∙◌, suc, zero, text_eq_sound, ◌⊎◌, any,
}
use deployer.Uploads.{
  constraint, has_hash, Upload, Refusal, Answer, NewUpload, got, refused, upload_limit,
  count_unclaimed_uploads, create_upload, row_of,
}
use deployer.Uploads.Accept.{
  window, Files, Volume, Landing, landed, failed, set_file, is_magic, check_gzip, measured,
  copy_body, write, discard, Call, Reply, accepted, turned_away, Store, record_landing, accept,
}

take_short : (m : ℕ) (s : Text) → length (take m s) < m → take m s ≡ s
take_short zero s h = absurd (omega arith)
take_short (suc m) [] h = refl
take_short (suc m) (c ∷ s) h = ap (λ t. c ∷ t) (take_short m s (omega (arith, h)))

-- A body that was taken whole and looks like gzip, with its size and digest.
abbrev pub Whole : Volume → ℕ → Text → ℕ → Text → Type 0
Whole v max_bytes content size sum =
    (length content ≤ max_bytes)
    × (is_magic content ≡ true)
    × (size ≡ length content)
    × (sum ≡ v.digest content)

measured-Whole :
    (v : Volume) (max_bytes : ℕ) (content : Text) (size : ℕ) (sum : Text)
    → measured v max_bytes content ≡ landed size sum
    → Whole v max_bytes content size sum
unfolding measured check_gzip
measured-Whole v max_bytes content size sum h =
    (ground (arith, h), ground (arith, h), ground (arith, h), ground (arith, h))

-- No other path is touched.
abbrev pub Frames : Text → Files → Files → Type 0
Frames path files after = (q : Text) → text_eq path q ≡ false → after q ≡ files q

set-Frames :
    (path : Text) (o : Option Text) (files : Files) → Frames path files (set_file path o files)
set-Frames path o files q h = rw h refl

copy-Frames :
    (v : Volume) (max_bytes : ℕ) (path body : Text) (files : Files) (breaks : Option ℕ)
    → Frames path files (copy_body v max_bytes path body files breaks).1
copy-Frames v max_bytes path body files none =
    set-Frames path (some (take (max_bytes + 1) body)) files
copy-Frames v max_bytes path body files (some n) =
    set-Frames path (some (take n (take (max_bytes + 1) body))) files

write-Frames :
    (v : Volume) (max_bytes : ℕ) (path body : Text) (files : Files)
    → Frames path files (write v max_bytes path body files).1
unfolding write
write-Frames v max_bytes path body files = elim (Bool-cases (is_some (files path) || not v.opens)) [
  | inl shut ↦ rw shut (λ q h. refl)
  | inr fine ↦ rw fine (copy-Frames v max_bytes path body files v.breaks_after)
]

copy_landed :
    (v : Volume) (max_bytes : ℕ) (path body : Text) (files : Files) (breaks : Option ℕ) (size : ℕ)
    (sum : Text)
    → (copy_body v max_bytes path body files breaks).0 ≡ landed size sum
    → ((copy_body v max_bytes path body files breaks).1 path ≡ some body)
      × Whole v max_bytes body size sum
copy_landed v max_bytes path body files (some n) size sum h = absurd (cc)
copy_landed v max_bytes path body files none size sum h =
    let cut = take (max_bytes + 1) body in
    let fits = measured-Whole v max_bytes cut size sum h in
    let same : cut ≡ body = take_short (max_bytes + 1) body (omega (arith, fits.0)) in
    (rw (text_eq_refl path) (ap some same), subst (λ t. Whole v max_bytes t size sum) same fits)

write_landed :
    (v : Volume) (max_bytes : ℕ) (path body : Text) (files : Files) (size : ℕ) (sum : Text)
    → (write v max_bytes path body files).0 ≡ landed size sum
    → ((write v max_bytes path body files).1 path ≡ some body) × Whole v max_bytes body size sum
unfolding write
write_landed v max_bytes path body files size sum h =
    elim (Bool-cases (is_some (files path) || not v.opens)) [
      | inl shut ↦ let wrong = rw shut at h in absurd (cc)
      | inr fine ↦
          rw fine (copy_landed v max_bytes path body files v.breaks_after size sum (rw fine at h))
    ]

-- A call that was accepted, and one that was not.
abbrev pub Clean : Volume → Call → Text → Files → List Upload → Reply × Store → Type 0
Clean v c body files rows (accepted u, (after, rows')) =
    (after c.path ≡ some body)
    × Whole v c.max_bytes body u.size_bytes u.sha256
    × (u.path ≡ c.path)
    × (rows' ≡ u ∷ rows)
    × Frames c.path files after
Clean v c body files rows (turned_away e, (after, rows')) =
    (rows' ≡ rows) × ((q : Text) → after q ≡ files q)

discard_restores :
    (v : Volume) (path : Text) (files after : Files)
    → v.removes ≡ true
    → files path ≡ none
    → Frames path files after
    → (q : Text) → discard v path after q ≡ files q
unfolding discard
discard_restores v path files after removes fresh frame q = elim (Bool-cases (text_eq path q)) [
  | inl same ↦ rw (removes, same) (sym fresh ∙ ap files (text_eq_sound path q same))
  | inr other ↦ rw (removes, other) (frame q other)
]

two_guards :
    (a b : Bool) (e d : Refusal) (l : List Upload) (g : Answer × List Upload)
    → ((if a then (refused e, l) else if b then (refused d, l) else g) ≡ g)
      ⊎ ((x : Refusal) × ((if a then (refused e, l) else if b then (refused d, l) else g)
            ≡ (refused x, l)))
two_guards true b e d l g = inr (e, refl)
two_guards false true e d l g = inr (d, refl)
two_guards false false e d l g = inl refl

create-cases :
    (now limit : ℕ) (n : NewUpload) (l : List Upload)
    → (create_upload now limit n l ≡ (got (row_of now n), row_of now n ∷ l))
      ⊎ ((e : Refusal) × (create_upload now limit n l ≡ (refused e, l)))
unfolding create_upload count_unclaimed_uploads
create-cases now limit n l =
    two_guards (ltb 0 limit && leb limit (count_unclaimed_uploads now n.account_id l))
      (any (λ (u : Upload). text_eq n.id u.id || has_hash n.fetch_token_hash u) l) upload_limit
      constraint l (got (row_of now n), row_of now n ∷ l)

-- The landing `x` with what it left on the volume, given what is known of it.
recorded-Clean :
    (v : Volume) (c : Call) (now then_ : ℕ) (body : Text) (files : Files) (rows : List Upload)
    (x : Landing × Files)
    → v.removes ≡ true
    → files c.path ≡ none
    → Frames c.path files x.1
    → ((size : ℕ) (sum : Text)
        → x.0 ≡ landed size sum
        → (x.1 c.path ≡ some body) × Whole v c.max_bytes body size sum)
    → Clean v c body files rows (record_landing v c now then_ rows x)
unfolding record_landing
recorded-Clean v c now then_ body files rows (failed e, after) removes fresh frame whole =
    (refl, discard_restores v c.path files after removes fresh frame)
recorded-Clean v c now then_ body files rows (landed size sum, after) removes fresh frame whole =
    let n : NewUpload = record {
      id = c.id;
      account_id = c.account_id;
      path = c.path;
      size_bytes = size;
      sha256 = sum;
      fetch_token_hash = v.placeholder;
      expires_at = now + window;
    } in
    let kept = whole size sum refl in
    elim (Bool-cases v.has_random) [
      | inl fine ↦ elim (create-cases then_ c.max_unclaimed n rows) [
        | inl made ↦ rw (fine, made) (kept.0, kept.1, refl, refl, frame)
        | inr (e, no_room) ↦
            rw (fine, no_room) (refl, discard_restores v c.path files after removes fresh frame)
      ]
      | inr bad ↦ rw bad (refl, discard_restores v c.path files after removes fresh frame)
    ]

-- At a path that holds no file yet, and if files can be removed: an upload that is accepted lies there
-- whole, is within the limit and starts like gzip, and its new row has its size, digest and path; one
-- that is turned away, for whatever reason, leaves the volume and the rows as they were. Other requests
-- may have added rows between the first count and the insertion.
pub accept-Clean :
    (v : Volume) (c : Call) (asked now then_ : ℕ) (body : Text) (seen : List Upload) (files : Files)
    (rows : List Upload)
    → v.removes ≡ true
    → files c.path ≡ none
    → Clean v c body files rows (accept v c asked now then_ body seen files rows)
unfolding accept
accept-Clean v c asked now then_ body seen files rows removes fresh =
    elim (Bool-cases (
      ltb 0 c.max_unclaimed
      && leb c.max_unclaimed (count_unclaimed_uploads asked c.account_id seen))) [
        | inl many ↦ rw many (refl, λ q. refl)
        | inr few ↦ elim (Bool-cases v.makes_dir) [
          | inr broken ↦ rw (few, broken) (refl, λ q. refl)
          | inl made ↦
              rw (few, made)
                (recorded-Clean v c now then_ body files rows
                  (write v c.max_bytes c.path body files) removes fresh
                  (write-Frames v c.max_bytes c.path body files)
                  (write_landed v c.max_bytes c.path body files))
        ]
      ]
