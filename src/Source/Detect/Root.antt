-- ===== src/Source/Detect/Root.antt =====
-- A name lands at the root's Dockerfile exactly if Clean makes it `Dockerfile`.
use deployer.Base.{
  Text, List, Bool, some, none, true, false, [], ◌∷◌, ◌++◌, ◌≡◌, arith, refl, sym, ap, ◌∙◌,
  Bool-cases, inl, inr, text_eq, text_eq_sound, text_eq_refl,
}
use deployer.Source.Paths.{safe_path, split_slash, clean, render, climbs, join_slash}
use deployer.Source.Paths.Elements.{
  Plain, path_of, NoSlash, split-join_slash, split-NoSlash, kept-NoSlash, split-no_slash,
}
use deployer.Source.Paths.Lands.{
  safe_path-lands, refused, inside, clean-relative, Plain-NoSlash, split-path_of,
}
use deployer.Source.Detect.{root_dockerfile}

Bool_same : (a b : Bool) → (a ≡ true → b ≡ true) → (b ≡ true → a ≡ true) → a ≡ b
Bool_same true true f g = refl
Bool_same true false f g = sym (f refl)
Bool_same false true f g = g refl
Bool_same false false f g = refl

abbrev rest_of : List Text → List Text
rest_of [] = []
rest_of (p ∷ ps) = ps

cancel : (ps ks ls : List Text) → ps ++ ks ≡ ps ++ ls → ks ≡ ls
cancel [] ks ls h = h
cancel (p ∷ ps) ks ls h = cancel ps ks ls (ap rest_of h)

append-NoSlash : (ps ks : List Text) → NoSlash ps → NoSlash ks → NoSlash (ps ++ ks)
append-NoSlash [] ks h k = k
append-NoSlash (p ∷ ps) ks h k = (h.0, append-NoSlash ps ks h.1 k)

abbrev pub alone : List Text
alone = root_dockerfile ∷ []

under_root :
    (q : Text) (qs ks : List Text)
    → NoSlash (q ∷ qs)
    → NoSlash ks
    → text_eq (path_of ((q ∷ qs) ++ ks)) (path_of ((q ∷ qs) ++ alone)) ≡ true
    → ks ≡ alone
under_root q qs ks h k e =
    let same = text_eq_sound (path_of ((q ∷ qs) ++ ks)) (path_of ((q ∷ qs) ++ alone)) e in
    let parts =
      sym (split-path_of q (qs ++ ks) (append-NoSlash (q ∷ qs) ks h k))
      ∙ ap split_slash same
      ∙ split-path_of q (qs ++ alone) (append-NoSlash (q ∷ qs) alone h (refl, tt)) in
    cancel (q ∷ qs) ks alone (ap rest_of parts)

cleaned :
    (ks : List Text) → NoSlash ks → text_eq (render false ks) root_dockerfile ≡ true → ks ≡ alone
cleaned [] k e = cc
cleaned (p ∷ ks) k e =
    sym (split-join_slash p ks k)
    ∙ ap split_slash (text_eq_sound (join_slash (p ∷ ks)) root_dockerfile e)
    ∙ split-no_slash root_dockerfile refl

alone_cleaned : (ks : List Text) → ks ≡ alone → text_eq (render false ks) root_dockerfile ≡ true
unfolding join_slash
alone_cleaned ks e = rw e refl

alone_under :
    (q : Text) (qs ks : List Text)
    → ks ≡ alone
    → text_eq (path_of ((q ∷ qs) ++ ks)) (path_of ((q ∷ qs) ++ alone)) ≡ true
alone_under q qs ks e = rw e (text_eq_refl (path_of ((q ∷ qs) ++ alone)))

pub lands-clean :
    (q : Text) (qs : List Text) (name target : Text)
    → Plain (q ∷ qs)
    → safe_path (path_of (q ∷ qs)) name ≡ some target
    → text_eq target (path_of ((q ∷ qs) ++ alone)) ≡ text_eq (clean name) root_dockerfile
unfolding climbs
lands-clean q qs name target h e = elim (Bool-cases (refused name)) [
  | inl bad ↦
      let clash : none ≡ some target = sym (safe_path-lands q qs name h ∙ rw bad refl) ∙ e in
      absurd (cc)
  | inr fine ↦
      let landed : safe_path (path_of (q ∷ qs)) name ≡ some (path_of ((q ∷ qs) ++ inside name)) =
        safe_path-lands q qs name h ∙ rw fine refl in
      let here : target ≡ path_of ((q ∷ qs) ++ inside name) = ground (arith, landed, e) in
      let relative = clean-relative name (ground arith) (ground arith) (ground arith) in
      let below = kept-NoSlash (split_slash name) (split-NoSlash name) in
      rw (here, relative)
        (Bool_same (text_eq (path_of ((q ∷ qs) ++ inside name)) (path_of ((q ∷ qs) ++ alone)))
          (text_eq (render false (inside name)) root_dockerfile)
          (λ s.
            alone_cleaned (inside name)
              (under_root q qs (inside name) (Plain-NoSlash (q ∷ qs) h) below s))
          (λ s. alone_under q qs (inside name) (cleaned (inside name) below s)))
]
