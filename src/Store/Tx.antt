-- ===== src/Store/Tx.antt =====
-- Errors, and write transactions: internal/store/errors.go and `inTx` of store.go. A transaction
-- reads and writes one database; what it wrote is kept only if it returns no error. Faults of the
-- driver and the retries on a busy lock are not modelled.
use deployer.Store.{Db}
use deployer.Base.{Bool, Option, arith, false, if◌then◌else◌, none, some, true, ◌≡◌, refl}

pub data Error : Type 0 where
  not_found app_deleted source_ambiguous illegal_transition terminal no_digest : Error
  -- A UNIQUE, a REFERENCES, and a CHECK.
  release_exists constraint broken_reference failed_check no_rows : Error

pub data Result {ℓ} (A : Type ℓ) : Type ℓ where
  ok : A → Result A
  err : Error → Result A

-- ErrTerminal wraps ErrIllegalTransition; errors.Is sees both.
unfoldable pub is_illegal : Error → Bool
is_illegal terminal = true
is_illegal illegal_transition = true
is_illegal _ = false

abbrev pub Tx : Type 0 → Type 0
Tx A = Db → Result (A × Db)

infixl 5 ◌>>=◌ ◌>>◌
abbrev pub ◌>>=◌ : {A B : Type 0} → Tx A → (A → Tx B) → Tx B
◌>>=◌ m f db = elim (m db) [ err e ↦ err e | ok (a, db') ↦ f a db' ]

abbrev pub ◌>>◌ : {A B : Type 0} → Tx A → Tx B → Tx B
m >> k = m >>= λ _. k

abbrev pub pure : {A : Type 0} → A → Tx A
pure a db = ok (a, db)

abbrev pub throw : {A : Type 0} → Error → Tx A
throw e db = err e

abbrev pub guard : Bool → Error → Tx (Unit {0})
guard b e db = if b then ok (tt, db) else err e

abbrev pub gets : {A : Type 0} → (Db → A) → Tx A
gets f db = ok (f db, db)

abbrev pub or_throw : {A : Type 0} → Option A → Error → Tx A
or_throw none e db = err e
or_throw (some a) e db = ok (a, db)

-- The whole transaction is applied, or nothing of it.
unfoldable pub in_tx : {A : Type 0} → Tx A → Db → Result A × Db
in_tx m db = elim (m db) [ err e ↦ (err e, db) | ok (a, db') ↦ (ok a, db') ]

-- A transaction that fails leaves the database as it was.
pub in_tx-err :
    {A : Type 0} (m : Tx A) (db : Db) {e : Error} → (in_tx m db).0 ≡ err e → (in_tx m db).1 ≡ db
unfolding in_tx
in_tx-err m db h = ground arith

pub in_tx-ok :
    {A : Type 0} (m : Tx A) (db : Db) {a : A} {db' : Db}
    → m db ≡ ok (a, db')
    → in_tx m db ≡ (ok a, db')
unfolding in_tx
in_tx-ok m db h = rw (h, in_tx) refl

pub in_tx-throw :
    {A : Type 0} (m : Tx A) (db : Db) {e : Error} → m db ≡ err e → in_tx m db ≡ (err e, db)
unfolding in_tx
in_tx-throw m db h = rw (h, in_tx) refl

pub bind-ok :
    {A B : Type 0} (m : Tx A) (f : A → Tx B) (db : Db) {a : A} {db' : Db} {r : Result (B × Db)}
    → m db ≡ ok (a, db')
    → f a db' ≡ r
    → (m >>= f) db ≡ r
bind-ok m f db h k = rw (h, ◌>>=◌) k

pub bind-err :
    {A B : Type 0} (m : Tx A) (f : A → Tx B) (db : Db) {e : Error}
    → m db ≡ err e
    → (m >>= f) db ≡ err e
bind-err m f db h = rw (h, ◌>>=◌) refl
