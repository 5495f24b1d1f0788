-- ===== src/Portal/Types.antt =====
-- internal/application/portal/types.go.
use torrent_tv.Prelude.{String, Bool, List, Option}
pub use torrent_tv.Prelude.{Time}
use torrent_tv.Prelude.Int.{ℤ}

pub record Link : Type 0 where
  pub id : ℤ
  pub title : String
  pub url : String
  pub description : String

pub record Snapshot : Type 0 where
  pub accounts_enabled : Bool
  pub ads_enabled : Bool
  pub donor : Bool
  pub links : List Link

pub record Promotion : Type 0 where
  pub id : String
  pub provider : String
  pub title : String
  pub text : String
  pub image : String
  pub link : String
  pub screen_time : ℤ

pub record Binary : Type 0 where
  pub platform : String
  pub download_url : String

pub record Notice : Type 0 where
  pub version : String
  pub notes : String
  pub released_at : Time
  pub download_url : String
  pub binaries : List Binary

pub record Session : Type 0 where
  pub token : String
  pub expires_at : Time

pub record User : Type 0 where
  pub id : ℤ
  pub email : String
  pub display_name : String
  pub role : String

pub record AccountStatus : Type 0 where
  pub donor : Bool
  pub donor_until : Option Time

pub record PublicSettings : Type 0 where
  pub accounts_enabled : Bool
  pub ads_enabled : Bool
