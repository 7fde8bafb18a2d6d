-- ===== src/Core/Db.antt =====
-- The tables of the database that authentication and the directory read and write.
use blank.Prelude.{List, []}
use blank.Auth.Models.{
  UserCredentials, RecoveryCode, AuthSession, LoginChallenge, OAuthIdentity, Invitation,
}
use blank.Directory.Models.{User, Membership}
use blank.Tenancy.Models.{Tenant}

pub record Db : Type 0 where
  pub tenants : List Tenant
  pub users : List User
  pub memberships : List Membership
  pub credentials : List UserCredentials
  pub recovery_codes : List RecoveryCode
  pub sessions : List AuthSession
  pub challenges : List LoginChallenge
  pub identities : List OAuthIdentity
  pub invitations : List Invitation

abbrev pub empty_db : Db
empty_db = record {
  tenants = [];
  users = [];
  memberships = [];
  credentials = [];
  recovery_codes = [];
  sessions = [];
  challenges = [];
  identities = [];
  invitations = [];
}
