-- ===== src/Auth/Types.antt =====
-- backend/src/kosmo/contracts/auth: tokens, claims, codes and users, the errors that the use cases
-- raise, and the audit events. A time is a number of seconds; a set of scopes is a list.
use kosmo.Base.{ℕ, Bool, Option, List}
use kosmo.Base.Text.{Text}

pub data TokenType : Type 0 where
  access refresh : TokenType

pub record IssuedToken : Type 0 where
  pub token : Text
  pub jti : Text
  pub expires_at : ℕ
  pub token_type : TokenType
  pub family_id : Option Text

pub record TokenPair : Type 0 where
  pub access : IssuedToken
  pub refresh : IssuedToken

pub record TokenClaims : Type 0 where
  pub subject : Text
  pub jti : Text
  pub issued_at : ℕ
  pub expires_at : ℕ
  pub token_type : TokenType
  pub scopes : List Text
  pub family_id : Option Text

pub record RefreshConsumeResult : Type 0 where
  pub subject : Text
  pub family_id : Option Text

pub record Principal : Type 0 where
  pub subject : Text
  pub scopes : List Text

pub record AuthorizationCode : Type 0 where
  pub code : Text
  pub subject : Text
  pub code_challenge : Text
  pub expires_at : ℕ
  pub scopes : List Text

pub record User : Type 0 where
  pub id : Text
  pub email : Text
  pub hashed_password : Text
  pub is_active : Bool

-- The exceptions of contracts/auth/errors.py that the modelled use cases raise.
pub data AuthError : Type 0 where
  invalid_token token_expired token_revoked token_reused : AuthError
  invalid_credentials authorization_code pkce_mismatch : AuthError
  account_locked : ℕ → AuthError

pub data AuditOutcome : Type 0 where
  success failure : AuditOutcome

pub data EventType : Type 0 where
  login locked_out refreshed reused logout register : EventType

pub record AuditEvent : Type 0 where
  pub event_type : EventType
  pub outcome : AuditOutcome
  pub occurred_at : ℕ
  pub actor_id : Option Text
  pub actor_email : Option Text
