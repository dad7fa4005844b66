-- ===== src/Domain/Slug/Words.antt =====
-- `DeriveBase` against an independent description: the runs of letters and digits, joined by dashes.
use mathlib.Core.List.{append-nil, append_assoc}
use deployer.Base.{
  Bool-cases, List, Text, [], false, inl, inr, refl, sym, true, ℕ, ◌++◌, ◌∷◌, ◌≡◌, arith, length,
  length-append, lt→ltb, Bool, ap, ◌∙◌,
}
use deployer.Domain.Slug.{alnum, write, scan}

emit : Text → List Text → List Text
emit [] l = l
emit (c ∷ cs) l = (c ∷ cs) ∷ l

-- The maximal runs of letters and digits of a text, the first of which begins with `cur`.
unfoldable pub runs : Text → Text → List Text
unfolding emit
runs cur [] = emit cur []
runs cur (c ∷ cs) = elim (alnum c) [
  | true ↦ runs (cur ++ c ∷ []) cs
  | false ↦ emit cur (runs [] cs)
]

-- strings.Join with a dash.
unfoldable pub join : List Text → Text
join [] = []
join (w ∷ []) = w
join (w ∷ v ∷ rest) = w ++ b'-' ∷ join (v ∷ rest)

dashed : List Text → Text
unfolding join
dashed [] = []
dashed (w ∷ rest) = b'-' ∷ join (w ∷ rest)

join-cons : (w : Text) (l : List Text) → join (w ∷ l) ≡ w ++ dashed l
unfolding join dashed
join-cons w [] = sym (append-nil w)
join-cons w (v ∷ rest) = refl

snoc-emit : (cur : Text) (c : ℕ) (l : List Text) → emit (cur ++ c ∷ []) l ≡ (cur ++ c ∷ []) ∷ l
unfolding emit
snoc-emit [] c l = refl
snoc-emit (d ∷ cur) c l = refl

-- A run that has begun stands at the head.
runs-snoc :
    (cur : Text) (c : ℕ) (s : Text)
    → dashed (runs (cur ++ c ∷ []) s) ≡ b'-' ∷ join (runs (cur ++ c ∷ []) s)
unfolding runs dashed
runs-snoc cur c [] = rw (snoc-emit cur c []) refl
runs-snoc cur c (d ∷ s) = elim (Bool-cases (alnum d)) [
  | inl a ↦ rw (a, runs) (runs-snoc (cur ++ c ∷ []) d s)
  | inr n ↦ rw (n, runs) (rw (snoc-emit cur c (runs [] s)) refl)
]

pub write-pending :
    (b : Text) (c r : ℕ) → write (b ++ c ∷ []) true r ≡ ((b ++ c ∷ []) ++ b'-' ∷ []) ++ r ∷ []
unfolding write
write-pending b c r =
    rw (lt→ltb 0 (length (b ++ c ∷ [])) (omega (arith, length-append b (c ∷ [])))) refl

mutual
  unfolding scan runs join dashed write

  scan_pending :
      (b : Text) (c : ℕ) (s : Text)
      → scan (b ++ c ∷ []) true s ≡ (b ++ c ∷ []) ++ dashed (runs [] s)
  scan_pending b c [] = sym (append-nil (b ++ c ∷ []))
  scan_pending b c (r ∷ s) = elim (Bool-cases (alnum r)) [
    | inl a ↦
        rw (a, scan, runs)
          (rw (write-pending b c r) (
            scan_running ((b ++ c ∷ []) ++ b'-' ∷ []) [] r s
            ∙ append_assoc (b ++ c ∷ []) (b'-' ∷ []) (join (runs (r ∷ []) s))
            ∙ ap (λ t. (b ++ c ∷ []) ++ t) (sym (runs-snoc [] r s))))
    | inr n ↦ rw (n, scan, runs) (scan_pending b c s)
  ]

  scan_running :
      (b cur : Text) (c : ℕ) (s : Text)
      → scan (b ++ (cur ++ c ∷ [])) false s ≡ b ++ join (runs (cur ++ c ∷ []) s)
  scan_running b cur c [] = ap (λ l. b ++ join l) (sym (snoc-emit cur c []))
  scan_running b cur c (r ∷ s) = elim (Bool-cases (alnum r)) [
    | inl a ↦
        rw (a, scan, runs)
          (rw (append_assoc b (cur ++ c ∷ []) (r ∷ [])) (scan_running b (cur ++ c ∷ []) r s))
    | inr n ↦
        rw (n, scan, runs)
          (rw (snoc-emit cur c (runs [] s), join-cons (cur ++ c ∷ []) (runs [] s))
            (ap (λ x. scan x true s) (sym (append_assoc b cur (c ∷ [])))
              ∙ scan_pending (b ++ cur) c s
              ∙ ap (λ x. x ++ dashed (runs [] s)) (append_assoc b cur (c ∷ []))
              ∙ append_assoc b (cur ++ c ∷ []) (dashed (runs [] s))))
  ]

-- The loop writes exactly the maximal runs of letters and digits, with a single dash between two.
pub scan-join : (p : Bool) (s : Text) → scan [] p s ≡ join (runs [] s)
unfolding scan runs join
scan-join p [] = refl
scan-join p (r ∷ s) = elim (Bool-cases (alnum r)) [
  | inl a ↦ rw (a, scan, runs) (start p)
  | inr n ↦ rw (n, scan, runs) (scan-join true s)
]
  where
    start : (q : Bool) → scan (write [] q r) false s ≡ join (runs (r ∷ []) s)
    start true = scan_running [] [] r s
    start false = scan_running [] [] r s
