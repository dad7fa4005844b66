-- ===== src/Invites/Spec.antt =====
-- What invites promise, without tables: an invite is live until a time, spent by one account, or
-- revoked; an address and an id belong to one account at most.
use deployer.Base.{
  Text, Bool, Option, some, none, false, is_nil, if◌then◌else◌, not, ◌&&◌, ◌||◌, ◌==◌, ltb, ◌+◌,
  text_eq, ℕ,
}
use deployer.Invites.{
  Refusal, NewInvite, NewAccount, address_registered, invite_invalid, email_taken, not_found,
  constraint,
}

pub data Status : Type 0 where
  live_until : ℕ → Status
  spent_by : ℕ → Status
  withdrawn : Status

pub record Book : Type 0 where
  pub status : ℕ → Option Status
  pub used : Text → Bool
  pub has_address : Text → Bool
  pub has_account : ℕ → Bool
  pub next : ℕ

pub data Op : Type 0 where
  create : ℕ → NewInvite → Op
  revoke : ℕ → ℕ → Op
  spend : ℕ → ℕ → ℕ → NewAccount → Op

pub data Verdict : Type 0 where
  minted_id : ℕ → Verdict
  was_revoked : Verdict
  joined_id : ℕ → Verdict
  no_to : Refusal → Verdict

abbrev pub is_open : ℕ → Option Status → Bool
is_open now none = false
is_open now (some (live_until e)) = ltb now e
is_open now (some (spent_by a)) = false
is_open now (some withdrawn) = false

abbrev pub put : {A : Type 0} → ℕ → A → (ℕ → A) → ℕ → A
put k a f j = if k == j then a else f j

abbrev pub obey : Op → Book → Verdict × Book
obey (create now n) b =
    if not (is_nil n.email) && b.has_address n.email
    then (no_to address_registered, b)
    else if b.used n.code_hash
    then (no_to constraint, b)
    else (
      minted_id b.next,
      record b {
        status = put b.next (some (live_until n.expires_at)) b.status;
        used = λ h. text_eq h n.code_hash || b.used h;
        next = b.next + 1;
      },
    )
obey (revoke now id) b =
    if is_open now (b.status id)
    then (was_revoked, record b { status = put id (some withdrawn) b.status })
    else (no_to not_found, b)
obey (spend now id account n) b =
    if not (is_open now (b.status id))
    then (no_to invite_invalid, b)
    else if b.has_account account || b.has_address n.email
    then (no_to email_taken, b)
    else (
      joined_id account,
      record b {
        status = put id (some (spent_by account)) b.status;
        has_address = λ e. text_eq e n.email || b.has_address e;
        has_account = λ a. account == a || b.has_account a;
        next = b.next + 1;
      },
    )
