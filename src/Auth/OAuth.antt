-- ===== src/Auth/OAuth.antt =====
-- apps/api/app/auth/oauth.py: the state of a login by OAuth, and the link of an identity to an
-- invited user. The exchange with the provider and the validation of its id_token are the
-- provider's and Authlib's: their result, the `OAuthUserInfo`, is an argument.
use blank.Prelude.{
  ℕ, ◌≡◌, refl, ◌⊎◌, inl, inr, Bool, true, false, not, ◌&&◌, Option, none, some, ◌∷◌, String,
  str_eq, arith, ◌==◌, Option-cases, ok, Exec, pure, gets, modify, or_raise, raise_if, ◌>>=◌, ◌>>◌,
}
use blank.Prelude.Text.{str_eq_refl}
use blank.Prelude.Table.{any, find, get, find-holds}
use blank.Core.Config.{Env}
use blank.Core.Db.{Db}
use blank.Auth.Models.{OAuthProvider, google, microsoft, OAuthIdentity}
use blank.Auth.Users.{get_user_by_email}
use blank.Directory.Models.{User}

-- `OAuthLoginError`, by message.
pub data OAuthLoginError : Type 0 where
  orphan_identity email_not_verified no_account : OAuthLoginError
  -- The `IntegrityError` of the constraint on provider and user.
  duplicate_link : OAuthLoginError

pub record OAuthUserInfo : Type 0 where
  pub provider : OAuthProvider
  pub subject : String
  pub email : String
  pub email_verified : Bool

abbrev pub same_provider : OAuthProvider → OAuthProvider → Bool
same_provider google google = true
same_provider microsoft microsoft = true
same_provider _ _ = false

unfoldable pub find_identity : OAuthProvider → String → Db → Option OAuthIdentity
find_identity provider subject db =
    find (λ i. same_provider i.provider provider && str_eq i.subject subject) db.identities

same_provider_refl : (p : OAuthProvider) → same_provider p p ≡ true
same_provider_refl google = refl
same_provider_refl microsoft = refl

module _ (env : Env) where
  -- The first login of an identity, by the verified email of an invited user.
  unfoldable pub link_identity : ℕ → OAuthUserInfo → Exec Db OAuthLoginError User
  link_identity id info = do
    raise_if (not info.email_verified) email_not_verified
    user ← or_raise (← gets (get_user_by_email env info.email)) no_account
    raise_if
        (← gets (λ db.
          any (λ i. same_provider i.provider info.provider && i.user_id == user.id) db.identities))
        duplicate_link
    let link : OAuthIdentity = record {
      id = id;
      provider = info.provider;
      subject = info.subject;
      user_id = user.id;
    }
    modify (λ db. record db { identities = link ∷ db.identities })
    pure user

  -- `complete_login`, from the validated id_token on.
  unfoldable pub complete_login : ℕ → OAuthUserInfo → Exec Db OAuthLoginError User
  unfolding link_identity
  complete_login id info = do
    identity ← gets (find_identity info.provider info.subject)
    elim identity [
      | none ↦ link_identity id info
      | some i ↦ (do
        user ← gets (λ db. get (λ u. u.id) i.user_id db.users)
        or_raise user orphan_identity)
    ]

  linked_login :
      (id : ℕ) (info : OAuthUserInfo) (db : Db) {user : User} {i : OAuthIdentity}
      → find_identity info.provider info.subject db ≡ some i
      → get (λ u. u.id) i.user_id db.users ≡ some user
      → complete_login id info db ≡ (ok user, db)
  unfolding complete_login
  linked_login id info db found known = ground arith

  -- A login by OAuth creates no user; one that returns gives a user of the database, who is linked
  -- to the identity from then on.
  pub complete_login_sound :
      (id : ℕ) (info : OAuthUserInfo) (db : Db) {user : User}
      → (complete_login id info db).0 ≡ ok user
      → ((complete_login id info db).1.users ≡ db.users)
        × (i : OAuthIdentity) × (find_identity info.provider info.subject
              (complete_login id info db).1
            ≡ some i)
        × (i.user_id ≡ user.id)
        × ((get (λ u. u.id) i.user_id db.users ≡ some user)
            ⊎ (get_user_by_email env info.email db ≡ some user) × (info.email_verified ≡ true))
  unfolding complete_login find_identity
  complete_login_sound id info db {user} e =
      elim (Option-cases (find_identity info.provider info.subject db)) [
        | inr (i, linked) ↦
            let here : get (λ u. u.id) i.user_id db.users ≡ some user = ground arith in
            let own = find-holds (λ (u : User). u.id == i.user_id) db.users here in
            (ground arith, i, ground arith, ground (arith, own), inl here)
        | inl fresh ↦ (
          ground arith,
          record { id = id; provider = info.provider; subject = info.subject; user_id = user.id },
          ground (arith, str_eq_refl info.subject, same_provider_refl info.provider),
          refl,
          inr (ground arith, ground arith),
        )
      ]

  -- After a login by OAuth of a user of the database, the same identity logs in the same user,
  -- whatever email it claims later, and writes nothing.
  pub complete_login_stable :
      (id later_id : ℕ) (info later : OAuthUserInfo) (db : Db) {user : User}
      → later.provider ≡ info.provider
      → later.subject ≡ info.subject
      → get (λ u. u.id) user.id db.users ≡ some user
      → (complete_login id info db).0 ≡ ok user
      → complete_login later_id later (complete_login id info db).1
        ≡ (ok user, (complete_login id info db).1)
  unfolding complete_login find_identity
  complete_login_stable id later_id info later db {user} p s known e =
      let sound = complete_login_sound id info db {user = user} e in
      let found : find_identity later.provider later.subject (complete_login id info db).1
          ≡ some sound.1 =
        rw (p, s) sound.2 in
      linked_login later_id later (complete_login id info db).1 found (rw (sound.0, sound.3) known)
