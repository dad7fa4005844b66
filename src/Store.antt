-- ===== src/Store.antt =====
-- internal/store: the SQLite tables behind a deployment, as lists of rows, the newest row first. An
-- id is the number of its ULID, which ids.New hands out in increasing order; a stamp is the number
-- of its instant. The snapshot of a release stands for its JSON text.
pub mod Tx
pub mod Queries
pub mod Deployments
pub mod Table
pub mod Distinct
use deployer.Domain.State.{State}
use deployer.Domain.Reason.{Reason}
use deployer.Domain.Config.{ConfigValue}
use Prim.Native.String.{String}
use deployer.Base.{List, Option, Text, ℕ}

pub record Deployment : Type 0 where
  pub id : ℕ
  pub app_id : ℕ
  pub account_id : ℕ
  pub upload_id : Option ℕ
  pub source_release_id : Option ℕ
  pub state : State
  pub build_path : Option Text
  pub build_job_name : Option Text
  pub image_repo : Option Text
  pub image_digest : Option Text
  pub failure_reason : Option Reason
  pub claimed_at : Option ℕ
  pub claimed_by : Option Text
  pub started_at : Option ℕ
  pub finished_at : Option ℕ
  pub created_at : ℕ
  pub updated_at : ℕ

pub record DeploymentEvent : Type 0 where
  pub id : ℕ
  pub deployment_id : ℕ
  pub from_state : Option State
  pub to_state : State
  pub reason : Option Reason
  pub detail : Option String
  pub occurred_at : ℕ

abbrev pub Config : Type 0
Config = List (Text × ConfigValue)

pub record Release : Type 0 where
  pub id : ℕ
  pub app_id : ℕ
  pub deployment_id : ℕ
  pub release_number : ℕ
  pub image_digest : Text
  pub config_snapshot : Config
  pub created_at : ℕ

pub record App : Type 0 where
  pub id : ℕ
  pub account_id : ℕ
  pub slug : Text
  pub current_release_id : Option ℕ
  pub deleted_at : Option ℕ
  pub updated_at : ℕ

pub record ConfigRow : Type 0 where
  pub app_id : ℕ
  pub key : Text
  pub value : ConfigValue
  pub updated_at : ℕ

-- `next_id` is the next ULID. Of the accounts and the uploads these methods meet the ids alone, in the
-- REFERENCES of a new deployment.
pub record Db : Type 0 where
  pub deployments : List Deployment
  pub events : List DeploymentEvent
  pub releases : List Release
  pub apps : List App
  pub app_config : List ConfigRow
  pub account_ids : List ℕ
  pub upload_ids : List ℕ
  pub next_id : ℕ
