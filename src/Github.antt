-- ===== src/Github.antt =====
-- src/github.rs and src/uploads.rs: the records that reviews and saved permissions carry.
pub mod Checks
use friendzone.Prelude.{ℕ, String, Bool, ◌&&◌, Option, ◌==◌, string_eq, nat_eq, Eq}
use friendzone.Prelude.Text.{Text, text_eq}

-- `Uuid`, `DateTime<Utc>` (in milliseconds) and `IpAddr` are compared, and times are ordered.
abbrev pub Uuid : Type 0
Uuid = ℕ

abbrev pub DateTime : Type 0
DateTime = ℕ

abbrev pub IpAddr : Type 0
IpAddr = ℕ

pub record Binding : Type 0 where
  pub entry : Text
  pub digest : Text

pub record Target : Type 0 where
  pub node_id : Text
  pub repository_id : Text
  pub repository : Text
  pub kind : Text
  pub number : ℕ
  pub title : Text
  pub url : Text

pub record Grant : Type 0 where
  pub id : Uuid
  pub target : Target
  pub binding : Binding
  pub created_at : DateTime

pub record CommentContext : Type 0 where
  pub binding : Binding
  pub subject_id : Text
  pub epoch : Uuid
  pub revision : Uuid

pub record Resolved : Type 0 where
  pub target : Target
  pub credential : Text

-- `uploads::Destination` and the parts of `uploads::Submission` and `uploads::Review` that the
-- queue reads or changes.
pub data Destination : Type 0 where
  github linear : Destination

pub record Upload : Type 0 where
  pub destination : Destination
  pub session_id : String
  pub url : Option String
  pub instance_id : Uuid
  pub content : Option Text

-- The derived `==` on `Binding`.
unfoldable pub binding_beq : Binding → Binding → Bool
binding_beq a b = a.entry == b.entry && a.digest == b.digest

-- `Target::same_identity`
unfoldable pub same_identity : Target → Target → Bool
same_identity a b =
    a.node_id == b.node_id
    && a.repository_id == b.repository_id
    && a.repository == b.repository
    && a.kind == b.kind
    && a.number == b.number
    && a.url == b.url

-- The derived `==` on `Target` and `Grant`.
unfoldable pub target_beq : Target → Target → Bool
unfolding same_identity
target_beq a b = same_identity a b && a.title == b.title

unfoldable pub grant_beq : Grant → Grant → Bool
unfolding target_beq binding_beq
grant_beq a b =
    a.id == b.id
    && target_beq a.target b.target
    && binding_beq a.binding b.binding
    && a.created_at == b.created_at
