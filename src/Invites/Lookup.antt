-- ===== src/Invites/Lookup.antt =====
-- LiveInvite and InviteStateOf.
use deployer.Base.{
  Text, Bool, some, true, is_some, not, ◌&&◌, ◌||◌, ◌≡◌, ◌↔◌, text_eq, text_eq_sound, ℕ, arith, sym,
}
use deployer.Store.Table.{find_by_sound}
use deployer.Invites.{Invite, Db, live, same_text, live_invite, invite_state_of, state_live}

-- The one state that is shown, and the predicate that every statement carries, agree.
pub invite_state_of-live :
    (now : ℕ) (i : Invite) → (invite_state_of now i ≡ state_live) ↔ (live now i ≡ true)
unfolding invite_state_of
invite_state_of-live now i = ground arith

-- The WHERE of the lookup.
abbrev offered : ℕ → Text → Text → Invite → Bool
offered now code_hash candidate i =
    text_eq code_hash i.code_hash
    && (not (is_some i.email) || same_text candidate i.email)
    && live now i

-- Bound to nobody, or to this address.
abbrev pub Welcomes : Text → Invite → Type 0
Welcomes candidate i = (not (is_some i.email) || same_text candidate i.email) ≡ true

-- A registration gets past the lookup only with the code of an invite that is shown as live at that
-- time and is bound to nobody or to the candidate's address.
pub live_invite-Welcomes :
    (now : ℕ) (code_hash candidate : Text) (db : Db) (i : Invite)
    → live_invite now code_hash candidate db ≡ some i
    → (i.code_hash ≡ code_hash) × (invite_state_of now i ≡ state_live) × Welcomes candidate i
unfolding live_invite
live_invite-Welcomes now code_hash candidate db i h =
    let found = find_by_sound (offered now code_hash candidate) db.invites i h in
    let same : text_eq code_hash i.code_hash ≡ true = ground (arith, found) in
    let lives : live now i ≡ true = ground (arith, found) in
    (
      sym (text_eq_sound code_hash i.code_hash same),
      (invite_state_of-live now i).1 lives,
      ground (arith, found),
    )
