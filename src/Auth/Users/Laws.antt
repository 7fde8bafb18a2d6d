-- ===== src/Auth/Users/Laws.antt =====
-- apps/api/app/auth/service.py: reading credentials after they were created or written.
use blank.Prelude.{ap, ◌∙◌, ℕ, ◌≡◌, none, some, arith, ◌==◌}
use blank.Prelude.Table.{find-holds, find-update_where}
use blank.Core.Db.{Db}
use blank.Auth.Models.{UserCredentials}
use blank.Auth.Users.{new_credentials, get_credentials, write_credentials, ensure_credentials}

module _ (user_id : ℕ) (f : UserCredentials → UserCredentials) (db : Db)
    (keyed : (c : UserCredentials) → (f c).user_id ≡ c.user_id) where
  pub get_credentials-write :
      {c : UserCredentials}
      → get_credentials user_id db ≡ some c
      → get_credentials user_id (write_credentials user_id f db) ≡ some (f c)
  unfolding get_credentials write_credentials
  get_credentials-write {c} e =
      find-update_where (λ r. r.user_id == user_id) (λ r. r.user_id == user_id) f db.credentials
        (λ r. ground (arith, keyed r)) e (find-holds (λ r. r.user_id == user_id) db.credentials e)

-- The credentials that are read belong to the user.
pub get_credentials-user :
    (user_id : ℕ) (db : Db) {c : UserCredentials}
    → get_credentials user_id db ≡ some c
    → c.user_id ≡ user_id
unfolding get_credentials
get_credentials-user user_id db {c} e =
    let h = find-holds (λ r. r.user_id == user_id) db.credentials e in ground arith

-- After `ensure_credentials` there are credentials: those that were there, or new ones.
pub get_credentials-ensure :
    (user_id : ℕ) (db : Db)
    → get_credentials user_id (ensure_credentials user_id db)
      ≡ some (elim (get_credentials user_id db) [ none ↦ new_credentials user_id | some c ↦ c ])
unfolding get_credentials ensure_credentials
get_credentials-ensure user_id db = ground arith

-- The same for a write at the key of the credentials that were read.
pub get_credentials-written :
    (user_id : ℕ) (f : UserCredentials → UserCredentials) (db after : Db) {c : UserCredentials}
    → ((r : UserCredentials) → (f r).user_id ≡ r.user_id)
    → get_credentials user_id db ≡ some c
    → after ≡ write_credentials c.user_id f db
    → get_credentials user_id after ≡ some (f c)
get_credentials-written user_id f db after {c} keyed e written =
    let own : after ≡ write_credentials user_id f db =
      written ∙ ap (λ u. write_credentials u f db) (get_credentials-user user_id db e) in
    ap (get_credentials user_id) own ∙ get_credentials-write user_id f db keyed e
